-- ===== src/Client/Items.antt =====
-- The item writer of client_tcp.go, the item encoders of client_requests.go, and the ACK command of
-- client.go.
use tx.Base.{
  ℕ, Bool, true, false, ◌&&◌, ◌||◌, not, Option, none, some, [], ◌∷◌, ◌++◌, Result, ok, err, ◌>>=◌,
  ◌>>◌, guard, if◌then◌else◌, length, ◌==◌,
}
use tx.Base.Int.{ℤ, pos, negsuc, is_neg}
use tx.Base.Bytes.{Bytes, codes, is_empty, trim_space}
use tx.Base.Decimal.{itoa, itoa_int}
use tx.Encoding.Hash.{valid_hash_token}
use tx.Ftcp.Items.{contains_line_break}

pub data ItemError : Type 0 where
  missing_full_path line_break no_items : ItemError
  missing_transfer_id bad_ack_bytes bad_timestamp invalid_hash bad_telemetry : ItemError

pub record ItemWriter : Type 0 where
  pub buf : Bytes
  pub failed : Option ItemError

abbrev pub new_item_writer : ItemWriter
new_item_writer = record { buf = []; failed = none }

abbrev pub has_failed : ItemWriter → Bool
has_failed w = elim w.failed [ none ↦ false | some e ↦ true ]

abbrev pub write : ItemWriter → Bytes → ItemWriter
write w s = record w { buf = w.buf ++ s }

pub begin : ItemWriter → ℕ → Bytes → ItemWriter
begin w file_id path =
    if has_failed w
    then w
    else (if is_empty (trim_space path)
        then record w { failed = some missing_full_path }
        else (if contains_line_break path
            then record w { failed = some line_break }
            else write w (
                (if is_empty w.buf then [] else 10 ∷ [])
                ++ (codes "fd="
                    ++ (itoa file_id ++ (b' ' ∷ (itoa (length path) ++ (b':' ∷ path))))))))

pub field : ItemWriter → Bytes → Bytes → ItemWriter
field w key value = if has_failed w then w else write w (b' ' ∷ (key ++ (b'=' ∷ value)))

pub field_int : ItemWriter → Bytes → ℤ → ItemWriter
unfolding field
field_int w key value =
    let w' = field w key [] in if has_failed w' then w' else write w' (itoa_int value)

pub bytes : ItemWriter → Result ItemError Bytes
bytes w = elim w.failed [
  | some e ↦ err e
  | none ↦ if is_empty w.buf then err no_items else ok (w.buf ++ (10 ∷ []))
]

pub record FetchFileTarget : Type 0 where
  pub file_id : ℕ
  pub full_path : Bytes
  pub comp : Bytes
  pub offset : ℤ
  pub size : ℤ

abbrev pub is_zero : ℤ → Bool
is_zero (pos n) = n == 0
is_zero (negsuc n) = false

abbrev pub is_positive : ℤ → Bool
is_positive (pos n) = not (n == 0)
is_positive (negsuc n) = false

unfoldable fetch_target_item_bytes : FetchFileTarget → Result ItemError Bytes
unfolding begin field field_int bytes
fetch_target_item_bytes t =
    let w₀ = begin new_item_writer t.file_id t.full_path in
    let w₁ = if is_empty t.comp then w₀ else field w₀ (codes "comp") t.comp in
    let w₂ = if is_zero t.offset then w₁ else field_int w₁ (codes "offset") t.offset in
    bytes (if is_positive t.size then field_int w₂ (codes "size") t.size else w₂)

pub record ChecksumTarget : Type 0 where
  pub file_id : ℕ
  pub full_path : Bytes
  pub offset : ℤ
  pub size : ℤ
  pub algo : Bytes

unfoldable checksum_target_item_bytes : ChecksumTarget → Result ItemError Bytes
unfolding begin field field_int bytes
checksum_target_item_bytes t =
    let w₀ = begin new_item_writer t.file_id t.full_path in
    let w₁ = if is_positive t.offset then field_int w₀ (codes "offset") t.offset else w₀ in
    let w₂ = if is_positive t.size then field_int w₁ (codes "size") t.size else w₁ in
    let algo = trim_space t.algo in
    bytes (if is_empty algo then w₂ else field w₂ (codes "algo") algo)

pub record AckRequest : Type 0 where
  pub transfer_id : Bytes
  pub file_id : ℕ
  pub full_path : Bytes
  pub ack_bytes : ℤ
  pub server_ts : ℤ
  pub hash_token : Bytes
  pub delta_bytes : ℤ
  pub recv_ms : ℤ
  pub sync_ms : ℤ

pub record AckCommand : Type 0 where
  pub request : AckRequest
  pub ack_token : Bytes

abbrev pub is_minus_one : ℤ → Bool
is_minus_one (pos n) = false
is_minus_one (negsuc n) = n == 0

pub build_ack_token : ℤ → ℤ → Bytes → Result ItemError Bytes
build_ack_token ack_bytes server_ts hash_token =
    if is_minus_one ack_bytes then ok (codes "-1") else (do
      guard (not (is_neg ack_bytes)) bad_ack_bytes
      guard (not (is_neg server_ts)) bad_timestamp
      guard (is_empty hash_token || valid_hash_token hash_token) invalid_hash
      ok (
          itoa_int ack_bytes
          ++ (b'@'
              ∷ (itoa_int server_ts ++ (if is_empty hash_token then [] else b'@' ∷ hash_token)))))

unfoldable pub build_ack_command : AckRequest → Result ItemError AckCommand
unfolding build_ack_token
build_ack_command r = do
  guard (not (is_empty r.transfer_id)) missing_transfer_id
  guard (not (is_empty r.full_path)) missing_full_path
  ack_token ← build_ack_token r.ack_bytes r.server_ts r.hash_token
  guard
      (is_neg r.ack_bytes
        || (not (is_neg r.delta_bytes) && (not (is_neg r.recv_ms) && not (is_neg r.sync_ms))))
      bad_telemetry
  ok (record { request = r; ack_token = ack_token })

unfoldable pub acknowledge_item_bytes : AckCommand → Result ItemError Bytes
unfolding begin field field_int bytes
acknowledge_item_bytes c =
    let r = c.request in
    let w₁ = field (begin new_item_writer r.file_id r.full_path) (codes "ack-token") c.ack_token in
    let w₂ = field_int w₁ (codes "delta-bytes") r.delta_bytes in
    let w₃ = field_int w₂ (codes "recv-ms") r.recv_ms in
    bytes (if is_neg r.ack_bytes then w₁ else field_int w₃ (codes "sync-ms") r.sync_ms)
