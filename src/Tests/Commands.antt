-- ===== src/Tests/Commands.antt =====
-- The command lines and the item bodies at concrete inputs.
use tx.Base.{some, ◌≡◌, ◌≢◌, refl, inl, false, List, [], ◌∷◌, ok, err, arith}
use tx.Base.Bytes.{Bytes, codes, is_empty, trim_space, to_upper}
use tx.Base.Decimal.{itoa}
use tx.Ftcp.Verb.{parse_verb, verb_string, stuck, send, ack, sync}
use tx.Ftcp.Cursor.{skip_spaces, eof, scan_token, read_token}
use tx.Ftcp.Params.{Params, get, put}
use tx.Ftcp.Request.{
  Request, parse_request, parse_args, parse_send, parse_txferid, options, options_loop, key_txferid,
  request_of,
}
use tx.Ftcp.Request.Shape.{parse_request-ne-stuck}
use tx.Ftcp.Request.Fields.{
  IsShaped, parse_request-IsShaped, parse_request-send_keys, parse_request-txferid,
}
use tx.Ftcp.Verb.{parse_verb-verb_string}
use tx.Ftcp.Items.{key_path, key_fid, send_item_keys, parse_item_line}
use tx.Ftcp.Items.RoundTrip.{item_line, store, parse_item_line-item_line}

parse_verb-verb_string_example : parse_verb (verb_string sync) ≡ some sync
parse_verb-verb_string_example = parse_verb-verb_string sync (λ e. cc)

parse_request-ne-stuck_example : parse_request (codes "SEND t1 mode=gentle") ≢ err stuck
parse_request-ne-stuck_example = parse_request-ne-stuck (codes "SEND t1 mode=gentle")

abbrev send_line : Bytes
send_line = codes "send t1 mode=gentle hue=red"

abbrev send_request : Request
send_request =
    request_of send (put (codes "mode") (codes "gentle") (put key_txferid (codes "t1") []))

send_line-parsed : parse_request send_line ≡ ok send_request
unfolding parse_request skip_spaces eof scan_token read_token parse_verb trim_space to_upper
    parse_args parse_send options options_loop get put
send_line-parsed = refl

abbrev ack_request : Request
ack_request = request_of ack (put key_txferid (codes "t1") [])

ack_line-parsed : parse_request (codes "ACK t1") ≡ ok ack_request
unfolding parse_request skip_spaces eof scan_token read_token parse_verb trim_space to_upper
    parse_args parse_txferid get put
ack_line-parsed = refl

parse_request-IsShaped_example : IsShaped send_request
parse_request-IsShaped_example = parse_request-IsShaped send_line send_request send_line-parsed

parse_request-send_keys_example :
    (p : Params) × (send_request.params ≡ p ∷ []) × (get (codes "hue") p ≡ [])
parse_request-send_keys_example =
    parse_request-send_keys send_line send_request (codes "hue") send_line-parsed refl refl refl

parse_request-txferid_example :
    (id : Bytes) × (ack_request.params ≡ put key_txferid id [] ∷ []) × (is_empty id ≡ false)
parse_request-txferid_example =
    parse_request-txferid (codes "ACK t1") ack_request ack_line-parsed (inl refl)

abbrev offset_field : List (Bytes × Bytes)
offset_field = (codes "offset", codes "4096") ∷ []

parse_item_line-item_line_example :
    parse_item_line send_item_keys (item_line 7 (codes "/a b/c") offset_field)
    ≡ ok (
        store send_item_keys offset_field (put key_path (codes "/a b/c") (put key_fid (itoa 7) [])))
parse_item_line-item_line_example =
    parse_item_line-item_line send_item_keys 7 (codes "/a b/c") offset_field (omega arith)
      ((omega arith, omega arith, omega arith, omega arith), tt)
