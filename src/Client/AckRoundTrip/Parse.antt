-- ===== src/Client/AckRoundTrip/Parse.antt =====
-- ParseACKItem and ParseACKToken of internal/filexfer/ftcp/ack.go on the fields that the client writes.
use tx.Base.{
  ℕ, ◌^◌, ◌≤◌, ◌<◌, ◌≡◌, refl, true, false, none, some, [], ◌∷◌, ◌++◌, ok, if◌then◌else◌, length,
  All, arith, inl, inr, ◌⊎◌,
}
use tx.Base.Int.{pos, negsuc}
use tx.Base.Bytes.{Bytes, codes, bytes_eq, is_empty, trim_space, cut, cut-append}
use tx.Base.Decimal.{
  itoa, itoa-IsDigit, IsDigit, IsDigit-Avoids, length-itoa, parse_int-itoa, parse_uint-itoa,
}
use tx.Encoding.Hash.{valid_hash_token}
use tx.Ftcp.Params.{Params, get, put}
use tx.Ftcp.Items.{ack_item_keys, key_path, key_fid}
use tx.Ftcp.Items.RoundTrip.{IsGraphic, store, trim_space-graphic}
use tx.Ftcp.Ack.{
  telemetry_field, parse_ack_telemetry_fields, parse_ack_rest, parse_ack_fields, parse_ack_token,
  parse_ack_item, ack_record_of,
}
use mathlib.Core.List.{append-nil}
use tx.Client.AckRoundTrip.{
  Outcome, missing, received, record_for, token_for, fields_for, InRange, IsSendable,
  not_empty_path, itoa-IsGraphic, token_for-IsGraphic,
}

filled : (s : Bytes) → 1 ≤ length s → is_empty s ≡ false
filled [] h = absurd (omega arith)
filled (c ∷ s) h = refl

number_filled : (n : ℕ) → is_empty (itoa n) ≡ false
number_filled n = filled (itoa n) (length-itoa n)

telemetry_field-itoa : (n : ℕ) → n < 2 ^ 63 → telemetry_field (itoa n) ≡ some n
unfolding telemetry_field
telemetry_field-itoa n h =
    rw (trim_space-graphic (itoa n) (itoa-IsGraphic n), number_filled n, parse_int-itoa n h)

parse_ack_telemetry_fields-nil : parse_ack_telemetry_fields [] [] [] ≡ some (0, 0, 0)
unfolding parse_ack_telemetry_fields telemetry_field trim_space
parse_ack_telemetry_fields-nil = refl

-- A number is not the token of a missing file.
not_minus_one :
    (s t : Bytes) → 1 ≤ length s → All IsDigit s → bytes_eq (s ++ t) (codes "-1") ≡ false
not_minus_one [] t l d = absurd (omega arith)
not_minus_one (c ∷ s) t l (d, ds) = ground arith

append_filled : (s t : Bytes) → 1 ≤ length s → is_empty (s ++ t) ≡ false
append_filled [] t l = absurd (omega arith)
append_filled (c ∷ s) t l = refl

no_cut : (s : Bytes) → All IsDigit s → cut b'@' s ≡ none
no_cut [] h = refl
no_cut (c ∷ s) (d, ds) = ground (arith, no_cut s ds)

parse_ack_rest-token :
    (n ts : ℕ) (hash : Bytes)
    → ts < 2 ^ 63
    → All IsGraphic hash
    → (hash ≡ []) ⊎ (valid_hash_token hash ≡ true)
    → parse_ack_rest n (itoa ts ++ (if is_empty hash then [] else b'@' ∷ hash))
      ≡ some (record { ack_bytes = pos n; ack_ts = ts; hash_token = hash; provided = true })
unfolding parse_ack_rest
parse_ack_rest-token n ts [] h g v =
    rw (append-nil, no_cut (itoa ts) (itoa-IsDigit ts), parse_ack_rest)
      (rw (append-nil, parse_int-itoa ts h))
parse_ack_rest-token n ts (c ∷ hash) h g (inl e) = cc
parse_ack_rest-token n ts (c ∷ hash) h g (inr v) =
    rw
      (
        cut-append b'@' (itoa ts) (c ∷ hash)
            (IsDigit-Avoids b'@' (itoa ts) (omega arith) (itoa-IsDigit ts)),
        parse_ack_rest,
      )
      (rw (parse_int-itoa ts h, trim_space-graphic (c ∷ hash) g, v))

-- The text of a token is read back to its three parts.
parse_ack_token-token :
    (n ts : ℕ) (hash : Bytes) (d r s : ℕ)
    → InRange (received n ts hash d r s)
    → parse_ack_token (token_for (received n ts hash d r s))
      ≡ some (record { ack_bytes = pos n; ack_ts = ts; hash_token = hash; provided = true })
unfolding parse_ack_token
parse_ack_token-token n ts hash d r s h =
    let rest = itoa ts ++ (if is_empty hash then [] else b'@' ∷ hash) in
    rw
      (
        trim_space-graphic (itoa n ++ (b'@' ∷ rest))
            (token_for-IsGraphic (received n ts hash d r s) h),
        append_filled (itoa n) (b'@' ∷ rest) (length-itoa n),
        not_minus_one (itoa n) (b'@' ∷ rest) (length-itoa n) (itoa-IsDigit n),
      )
      (rw
        (
          cut-append b'@' (itoa n) rest
              (IsDigit-Avoids b'@' (itoa n) (omega arith) (itoa-IsDigit n)),
          parse_ack_fields,
        )
        (rw (parse_int-itoa n h.0) (parse_ack_rest-token n ts hash h.1 h.5 h.6)))

parse_ack_telemetry_fields-itoa :
    (d r s : ℕ)
    → d < 2 ^ 63
    → r < 2 ^ 63
    → s < 2 ^ 63
    → parse_ack_telemetry_fields (itoa d) (itoa r) (itoa s) ≡ some (d, r, s)
unfolding parse_ack_telemetry_fields
parse_ack_telemetry_fields-itoa d r s hd hr hs =
    rw (telemetry_field-itoa d hd, parse_ack_telemetry_fields)
      (rw (telemetry_field-itoa r hr, telemetry_field-itoa s hs))

abbrev pub params_for : ℕ → Bytes → Outcome → Params
params_for fid path o =
    store ack_item_keys (fields_for o) (put key_path path (put key_fid (itoa fid) []))

parse_ack_item-missing :
    (id : Bytes) (fid : ℕ) (path : Bytes)
    → IsSendable fid path missing
    → parse_ack_item (params_for fid path missing) id
      ≡ ok (record {
        transfer_id = id;
        file_id = fid;
        ack_token = codes "-1";
        path = path;
        delta_bytes = 0;
        recv_ms = 0;
        sync_ms = 0;
      })
unfolding parse_ack_item get put
parse_ack_item-missing id fid path h =
    rw
      (
        parse_uint-itoa fid h.id_fits,
        trim_space-graphic (codes "-1") (omega arith),
        parse_ack_telemetry_fields-nil,
      )
      (rw (not_empty_path path h.not_blank))

parse_ack_item-received :
    (id : Bytes) (fid : ℕ) (path : Bytes) (n ts : ℕ) (hash : Bytes) (d r s : ℕ)
    → IsSendable fid path (received n ts hash d r s)
    → parse_ack_item (params_for fid path (received n ts hash d r s)) id
      ≡ ok (record {
        transfer_id = id;
        file_id = fid;
        ack_token = token_for (received n ts hash d r s);
        path = path;
        delta_bytes = d;
        recv_ms = r;
        sync_ms = s;
      })
unfolding parse_ack_item get put
parse_ack_item-received id fid path n ts hash d r s h =
    let rest = itoa ts ++ (if is_empty hash then [] else b'@' ∷ hash) in
    rw
      (
        parse_uint-itoa fid h.id_fits,
        trim_space-graphic (itoa n ++ (b'@' ∷ rest))
            (token_for-IsGraphic (received n ts hash d r s) h.in_range),
        append_filled (itoa n) (b'@' ∷ rest) (length-itoa n),
        parse_ack_telemetry_fields-itoa d r s h.in_range.2 h.in_range.3 h.in_range.4,
      )
      (rw (not_empty_path path h.not_blank))

parse_ack_token-missing :
    parse_ack_token (codes "-1")
    ≡ some (record { ack_bytes = negsuc 0; ack_ts = 0; hash_token = []; provided = true })
unfolding parse_ack_token
parse_ack_token-missing = rw (trim_space-graphic (codes "-1") (omega arith))

pub ack_record_of-fields :
    (id : Bytes) (fid : ℕ) (path : Bytes) (o : Outcome)
    → IsSendable fid path o
    → ack_record_of id (params_for fid path o) ≡ ok (record_for fid path o)
unfolding ack_record_of
ack_record_of-fields id fid path missing h =
    rw (parse_ack_item-missing id fid path h, parse_ack_token-missing)
ack_record_of-fields id fid path (received n ts hash d r s) h = rw (
  parse_ack_item-received id fid path n ts hash d r s h,
  parse_ack_token-token n ts hash d r s h.in_range,
)
