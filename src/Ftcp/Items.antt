-- ===== src/Ftcp/Items.antt =====
-- internal/filexfer/ftcp/items.go, and the line helpers of internal/utils/lines.go. The framed body
-- is taken as its decoded bytes.
pub mod RoundTrip
pub mod Lines
use tx.Base.{
  ℕ, zero, suc, ◌+◌, ◌<◌, ◌≡◌, Bool, true, false, ◌&&◌, ◌||◌, not, Option, none, some, List, [],
  ◌∷◌, ◌++◌, Result, ok, err, ◌>>=◌, ◌>>◌, guard, or_err, if◌then◌else◌, length, ltb, leb, ◌==◌,
  drop,
}
use tx.Base.Bytes.{Bytes, codes, bytes_eq, is_empty, trim_space, cut, starts_with}
use tx.Ftcp.Verb.{Verb, send, ack, cxsum, Failure, stuck, bad_command, bad_request}
use tx.Ftcp.Cursor.{eof, read_token, read_path_value}
use tx.Ftcp.Params.{Params, get, put}
use tx.Ftcp.Request.{relabel, one_of}
use mathlib.Core.List.{reverse}

abbrev pub newline : ℕ
newline = 10

abbrev pub carriage : ℕ
carriage = 13

abbrev pub drop_first : ℕ → Bytes → Bytes
drop_first c [] = []
drop_first c (d ∷ ds) = if d == c then ds else d ∷ ds

abbrev pub trim_reversed : Bytes → Bytes
trim_reversed [] = []
trim_reversed (d ∷ ds) = if d == newline then drop_first carriage ds else d ∷ ds

-- `TrimLineTerminator`: a trailing line feed, and a carriage return before it.
pub trim_line_terminator : Bytes → Bytes
trim_line_terminator line = reverse (trim_reversed (reverse line))

unfoldable pub contains_line_break : Bytes → Bool
contains_line_break [] = false
contains_line_break (c ∷ cs) = (c == newline || c == carriage) || contains_line_break cs

abbrev pub max_item_line_bytes : ℕ
max_item_line_bytes = 8192

abbrev pub send_item_keys : List Bytes
send_item_keys = codes "offset" ∷ codes "size" ∷ codes "comp" ∷ []

abbrev pub ack_item_keys : List Bytes
ack_item_keys = codes "ack-token" ∷ codes "delta-bytes" ∷ codes "recv-ms" ∷ codes "sync-ms" ∷ []

abbrev pub cxsum_item_keys : List Bytes
cxsum_item_keys = codes "offset" ∷ codes "size" ∷ codes "algo" ∷ []

unfoldable request_item_kind : Verb → Result Failure (List Bytes)
request_item_kind send = ok send_item_keys
request_item_kind ack = ok ack_item_keys
request_item_kind cxsum = ok cxsum_item_keys
request_item_kind _ = err (bad_command "verb has no request body")

unfoldable verb_has_request_items : Verb → Bool
verb_has_request_items send = true
verb_has_request_items ack = true
verb_has_request_items cxsum = true
verb_has_request_items _ = false

abbrev pub key_fid : Bytes
key_fid = codes "fid"

abbrev pub key_path : Bytes
key_path = codes "path"

-- The options behind the path.
pub item_options : List Bytes → ℕ → Bytes → Params → Result Failure Params
item_options allowed zero c item = err stuck
item_options allowed (suc fuel) c item = elim (eof c) [
  | true ↦ ok item
  | false ↦ do
    (tok, rest) ← relabel (read_token c) (bad_request "invalid item option")
    (key, val) ← or_err (cut b'=' tok) (bad_request "invalid item option")
    item_options allowed fuel rest (if one_of allowed key then put key val item else item)
]

-- The message names the verb in the source; here it does not. The path is the value that was read:
-- a length-prefixed value ends where the cursor stops, so the slice of the line is the same bytes.
pub parse_item_line : List Bytes → Bytes → Result Failure Params
unfolding item_options
parse_item_line allowed line = do
  guard (not (eof line)) (bad_request "empty item")
  (tok, c) ← relabel (read_token line) (bad_request "invalid file id")
  guard (starts_with (codes "fd=") tok) (bad_request "invalid file id")
  let fid = trim_space (drop 3 tok)
  guard (not (is_empty fid)) (bad_request "invalid file id")
  (path, rest) ← relabel (read_path_value c) (bad_request "invalid path")
  item_options allowed (suc (length rest)) rest (put key_path path (put key_fid fid []))

-- The bytes up to and with the next line feed, and those behind it.
pub next_line : Bytes → Bytes × Bytes
next_line [] = ([], [])
next_line (c ∷ cs) = if c == newline then (c ∷ [], cs) else (c ∷ (next_line cs).0, (next_line cs).1)

-- `visitItemBody` with the visitor that `parseRequestItemRecords` gives it: `parse` makes a record
-- of each item. Every round takes a byte at least.
pub visit_items {ℓ} :
    {T : Type ℓ} → List Bytes → (Params → Result Failure T) → ℕ → Bytes → Result Failure (List T)
visit_items allowed parse fuel [] = ok []
visit_items allowed parse zero (b ∷ bs) = err stuck
visit_items allowed parse (suc fuel) (b ∷ bs) = do
  let line = (next_line (b ∷ bs)).0
  let body = (next_line (b ∷ bs)).1
  guard (leb (length line) max_item_line_bytes) (bad_request "item line too large")
  let trimmed = trim_line_terminator line
  elim (is_empty trimmed) [
    | true ↦ visit_items allowed parse fuel body
    | false ↦ do
      item ← parse_item_line allowed trimmed
      made ← parse item
      records ← visit_items allowed parse fuel body
      ok (made ∷ records)
  ]

-- `countRequestItemLines`
pub count_lines : ℕ → Bytes → Result Failure ℕ
count_lines fuel [] = ok 0
count_lines zero (b ∷ bs) = err stuck
count_lines (suc fuel) (b ∷ bs) = do
  let line = (next_line (b ∷ bs)).0
  guard (leb (length line) max_item_line_bytes) (bad_request "item line too large")
  let trimmed = trim_line_terminator line
  guard (is_empty trimmed || leb (length (codes "fd=0 1:x")) (length trimmed))
      (bad_request "invalid item")
  rest ← count_lines fuel (next_line (b ∷ bs)).1
  ok (if is_empty trimmed then rest else suc rest)

-- `parseRequestItemRecords`: the lines are counted before any is parsed.
pub parse_request_item_records {ℓ} :
    {T : Type ℓ} → List Bytes → (Params → Result Failure T) → Bytes → Result Failure (List T)
parse_request_item_records allowed parse body = do
  count ← count_lines (length body) body
  visit_items allowed parse (length body) body
