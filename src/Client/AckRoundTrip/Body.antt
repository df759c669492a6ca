-- ===== src/Client/AckRoundTrip/Body.antt =====
-- The ACK body of client_requests.go against the item reader of internal/filexfer/ftcp/items.go.
use tx.Base.{
  ℕ, ◌+◌, ◌^◌, ◌≤◌, ◌<◌, ◌≡◌, ◌≢◌, refl, ap, ◌∙◌, false, List, [], ◌∷◌, ◌++◌, Result, ok, ◌>>=◌,
  length, All, All-append, arith, length-append, map,
}
use tx.Base.Bytes.{Bytes, is_empty, Avoids}
use tx.Base.Decimal.{itoa, length-itoa}
use tx.Ftcp.Items.{
  newline, carriage, contains_line_break, ack_item_keys, parse_request_item_records,
}
use tx.Ftcp.Items.RoundTrip.{IsGraphic, IsField, render, item_line, parse_item_line-item_line}
use tx.Ftcp.Items.Lines.{IsLine, body_of, made_of, AllParsed, parse_request_item_records-lines}
use tx.Ftcp.Ack.{AckRecord, ack_record_of}
use tx.Client.Items.{ItemError, build_ack_command, acknowledge_item_bytes}
use mathlib.Core.List.{append_assoc}
use tx.Client.AckRoundTrip.{
  Outcome, Progress, request_for, record_for, fields_for, IsSendable, not_empty_path,
  itoa-IsGraphic, fields_for-IsField, build_ack_command-request, acknowledge_item_bytes-line,
}
use tx.Client.AckRoundTrip.Parse.{params_for, ack_record_of-fields}
use tx.Client.Requests.Chunks.{encode_all}

Graphic-Avoids : (c : ℕ) (s : Bytes) → c < 33 → All IsGraphic s → Avoids c s
Graphic-Avoids c [] h g = tt
Graphic-Avoids c (x ∷ s) h (g, gs) = (omega arith, Graphic-Avoids c s h gs)

contains_line_break-Avoids :
    (path : Bytes) → contains_line_break path ≡ false → Avoids newline path × Avoids carriage path
unfolding contains_line_break
contains_line_break-Avoids [] h = (tt, tt)
contains_line_break-Avoids (c ∷ path) h =
    let more = contains_line_break-Avoids path (ground arith) in
    ((ground arith, more.0), (ground arith, more.1))

Avoids-append : (c : ℕ) (s t : Bytes) → Avoids c s → Avoids c t → Avoids c (s ++ t)
Avoids-append c s t h k = All-append (λ d. d ≢ c) s t h k

Avoids-render :
    (c : ℕ) (kvs : List (Bytes × Bytes)) → c < 32 → All IsField kvs → Avoids c (render kvs)
Avoids-render c [] h f = tt
Avoids-render c ((k, v) ∷ kvs) h ((l, gk, a, gv), f) = (
  omega arith,
  Avoids-append c (k ++ (b'=' ∷ v)) (render kvs)
      (Avoids-append c k (b'=' ∷ v) (Graphic-Avoids c k (omega arith) gk)
        (omega arith, Graphic-Avoids c v (omega arith) gv))
      (Avoids-render c kvs h f),
)

Avoids-item_line :
    (c fid : ℕ) (path : Bytes) (kvs : List (Bytes × Bytes))
    → c < 32
    → Avoids c path
    → All IsField kvs
    → Avoids c (item_line fid path kvs)
Avoids-item_line c fid path kvs h p f =
    let number = λ (n : ℕ). Graphic-Avoids c (itoa n) (omega arith) (itoa-IsGraphic n) in
    (
      omega arith,
      (
        omega arith,
        (
          omega arith,
          Avoids-append c (itoa fid) _ (number fid) (
            omega arith,
            Avoids-append c (itoa (length path)) _ (number (length path))
                (omega arith, Avoids-append c path (render kvs) p (Avoids-render c kvs h f)),
          ),
        ),
      ),
    )

filled_path : (path : Bytes) → is_empty path ≡ false → 1 ≤ length path
filled_path [] h = cc
filled_path (c ∷ path) h = omega arith

length-item_line :
    (fid : ℕ) (path : Bytes) (kvs : List (Bytes × Bytes))
    → length (item_line fid path kvs)
      ≡ 5 + length (itoa fid) + length (itoa (length path)) + length path + length (render kvs)
length-item_line fid path kvs = omega (
  arith,
  length-append (itoa fid) (b' ' ∷ (itoa (length path) ++ (b':' ∷ (path ++ render kvs)))),
  length-append (itoa (length path)) (b':' ∷ (path ++ render kvs)),
  length-append path (render kvs),
)

pub item_line-IsLine :
    (fid : ℕ) (path : Bytes) (o : Outcome)
    → IsSendable fid path o
    → IsLine (item_line fid path (fields_for o))
item_line-IsLine fid path o h =
    let f = fields_for-IsField o h.in_range in
    let (no_feed, no_return) = contains_line_break-Avoids path h.no_break in
    record {
      filled = omega (
        arith,
        length-item_line fid path (fields_for o),
        length-itoa fid,
        length-itoa (length path),
        filled_path path (not_empty_path path h.not_blank),
      );
      short = h.short;
      one_line = Avoids-item_line newline fid path (fields_for o) (omega arith) no_feed f;
      no_return = Avoids-item_line carriage fid path (fields_for o) (omega arith) no_return f;
    }

abbrev pub encode_progress : Bytes → Progress → Result ItemError Bytes
encode_progress id p = do
  command ← build_ack_command (request_for id p.file_id p.path p.outcome)
  acknowledge_item_bytes command

abbrev pub Sendable : Progress → Type 0
Sendable p = IsSendable p.file_id p.path p.outcome

abbrev pub record_of : Progress → AckRecord
record_of p = record_for p.file_id p.path p.outcome

abbrev lines : List Progress → List (Bytes × AckRecord)
lines [] = []
lines (p ∷ ps) = (item_line p.file_id p.path (fields_for p.outcome), record_of p) ∷ lines ps

encode_progress-line :
    (id : Bytes) (p : Progress)
    → is_empty id ≡ false
    → Sendable p
    → encode_progress id p
      ≡ ok (item_line p.file_id p.path (fields_for p.outcome) ++ (newline ∷ []))
encode_progress-line id p ne h =
    rw (build_ack_command-request id p.file_id p.path p.outcome ne h)
      (acknowledge_item_bytes-line id p.file_id p.path p.outcome h)

encode_all-lines :
    (id : Bytes) (ps : List Progress)
    → is_empty id ≡ false
    → All Sendable ps
    → encode_all (encode_progress id) ps ≡ ok (body_of (lines ps))
encode_all-lines id [] ne h = refl
encode_all-lines id (p ∷ ps) ne (h, hs) =
    rw (encode_progress-line id p ne h, encode_all-lines id ps ne hs) (simp append_assoc)

path_fits : (fid : ℕ) (path : Bytes) (o : Outcome) → IsSendable fid path o → length path < 2 ^ 63
path_fits fid path o h = omega (arith, h.short, length-item_line fid path (fields_for o))

lines-AllParsed :
    (id : Bytes) (ps : List Progress)
    → All Sendable ps
    → AllParsed ack_item_keys (ack_record_of id) (lines ps)
lines-AllParsed id [] h = tt
lines-AllParsed id (p ∷ ps) (h, hs) = (
  (
    item_line-IsLine p.file_id p.path p.outcome h,
    (
      params_for p.file_id p.path p.outcome,
      parse_item_line-item_line ack_item_keys p.file_id p.path (fields_for p.outcome)
          (path_fits p.file_id p.path p.outcome h) (fields_for-IsField p.outcome h.in_range),
      ack_record_of-fields id p.file_id p.path p.outcome h,
    ),
  ),
  lines-AllParsed id ps hs,
)

made_of-lines : (ps : List Progress) → made_of (lines ps) ≡ map record_of ps
made_of-lines [] = refl
made_of-lines (p ∷ ps) = ap (λ rs. record_of p ∷ rs) (made_of-lines ps)

-- Where the transfer id is not empty and every progress is in range, on one line and within the
-- item line limit, the client's encoder accepts them all, and the server parses the joined
-- encodings back to exactly the records they stand for, in order.
pub encode_all-parse_request_item_records :
    (id : Bytes) (ps : List Progress)
    → is_empty id ≡ false
    → All Sendable ps
    → (body : Bytes) × (encode_all (encode_progress id) ps ≡ ok body)
      × (parse_request_item_records ack_item_keys (ack_record_of id) body ≡ ok (map record_of ps))
encode_all-parse_request_item_records id ps ne h = (
  body_of (lines ps),
  encode_all-lines id ps ne h,
  parse_request_item_records-lines ack_item_keys (ack_record_of id) (lines ps)
        (lines-AllParsed id ps h)
      ∙ ap ok (made_of-lines ps),
)
