-- ===== src/Tests/Acks.antt =====
-- Window hashes, registration, the ACK handler and the compression policy at concrete inputs.
use tx.Base.{
  ℕ, ◌+◌, ◌≡◌, refl, inr, ◌⊎◌, ◌↔◌, ◌≢◌, ap, ◌*◌, ◌/◌, none, true, false, List, [], ◌∷◌, ◌++◌, ok,
  length, arith, map, ltb, leb, if◌then◌else◌, ◌==◌,
}
use tx.Base.Int.{pos, pos_part}
use tx.Base.Bytes.{Bytes, codes, trim_space}
use tx.Ftcp.Verb.{ack}
use tx.Ftcp.Params.{get, put}
use tx.Ftcp.Request.{Request, request_of, key_txferid}
use tx.Ftcp.Items.{ack_item_keys, parse_request_item_records}
use tx.Ftcp.Ack.{AckRecord, ack_record_of, ack_transfer_id}
use tx.Ftcp.Ack.Handle.{Deps, AllAccepted, lookups, handle_ack, handle_ack-AllAccepted}
use tx.Store.{Transfer, Managed, WindowHash, started}
use tx.Store.Acknowledge.{acknowledge_file_locked}
use tx.Store.Windows.{
  is_recordable, record_hashes, verify_hash, valid_window_token, verify_hash-record_hashes,
  verify_hash-acknowledge_file_locked,
}
use tx.Store.Padding.{lower_byte, SameLetters, is_visible→All}
use tx.Store.Register.{FileStateUpdate, register_all}
use tx.Store.Consistent.{Counts}
use tx.Store.Consistent.Registered.{register_all-Counts}
use tx.Policy.{
  CompressionMode, zstd_default, zstd_level1, Float, new_compression_policy, CompressionMetrics,
}
use tx.Policy.Hysteresis.{ladder_all, steady, decide_all, decide_all-ladder_all}

abbrev one_file : Transfer
one_file = record {
  id = codes "t1";
  directory = codes "/a";
  num_entries = pos 1;
  num_files = pos 1;
  total_size = pos 4096;
  done = 0;
  done_size = pos 0;
  entries =
      record {
        state = started;
        entry_type = b'F';
        path_hash = 0;
        file_size = pos 4096;
        acked_size = 0;
      }
      ∷ [];
  state_counts = λ s. if s == 1 then pos 1 else pos 0;
  expires_at = 100;
  complete_logged = false;
}

abbrev managed : Managed
managed = record { deleted = false; transfer = one_file; window_hashes = [] }

abbrev window : WindowHash
window = record { file_id = 0; end_bytes = pos 4096; hash_token = codes "xxh3:AB" }

-- ToLower on ASCII text, and on all other bytes nothing.
abbrev lowered : Bytes → Bytes
lowered = map lower_byte

abbrev other_window : WindowHash
other_window = record { file_id = 0; end_bytes = pos 2048; hash_token = codes "xxh3:99" }

abbrev padded_window : WindowHash
padded_window = record { file_id = 0; end_bytes = pos 4096; hash_token = codes "\t xxh3:AB " }

verify_hash-record_hashes_example :
    (verify_hash lowered
        (record_hashes lowered 90 managed (padded_window ∷ other_window ∷ [])).1
        (record padded_window { hash_token = codes " XXH3:ab" })
      ≡ true)
    ↔ SameLetters (codes "xxh3:AB") (codes "XXH3:ab")
verify_hash-record_hashes_example =
    verify_hash-record_hashes lowered (λ s h. refl) 90 managed padded_window (other_window ∷ [])
      (codes " XXH3:ab") (codes "xxh3:AB") (codes "XXH3:ab") padded-recordable (inr other_end, tt)
      (is_visible→All (codes "xxh3:AB") refl, omega arith)
      (is_visible→All (codes "XXH3:ab") refl, omega arith)
      (codes "\t ", codes " ", (refl, (refl, tt)), (refl, tt), refl)
      (codes " ", [], (refl, tt), tt, refl)
  where
    padded-recordable : is_recordable managed padded_window ≡ true
    padded-recordable = unfold valid_window_token trim_space in refl

    differ : (n : ℕ) → n ≡ 2048 → n ≢ 4096
    differ n h k = omega arith

    other_end : other_window.end_bytes ≢ padded_window.end_bytes
    other_end e = differ 2048 refl (ap pos_part e)

verify_hash-acknowledge_file_locked_example :
    verify_hash lowered (acknowledge_file_locked 60 50 managed 0 (pos 4096)).1 window ≡ false
verify_hash-acknowledge_file_locked_example =
    verify_hash-acknowledge_file_locked lowered 60 50 managed window
      (record {
        state = started;
        entry_type = b'F';
        path_hash = 0;
        file_size = pos 4096;
        acked_size = 0;
      })
      4096 refl refl refl (omega arith) refl

abbrev updates : List FileStateUpdate
updates =
    record { file_id = 3; entry_type = b'F'; path_hash = 7; file_size = pos 10 }
    ∷ record { file_id = 0; entry_type = b'D'; path_hash = 8; file_size = pos 0 }
    ∷ []

register_all-Counts_example : Counts (register_all started one_file updates).1
register_all-Counts_example =
    register_all-Counts started one_file updates (refl, refl, refl, refl, refl)

-- A store that only counts what it was given to acknowledge.
abbrev counting : Deps ℕ
counting = record {
  get_file_refs = λ s id ls. map (λ l. ok (pos 4096)) ls;
  verify_hashes = λ s id hs. map (verify_hash lowered managed) hs;
  acknowledge = λ s id es. (true, s + length es);
  log_progress = λ s id. s;
  log_complete = λ s id. (false, s);
}

abbrev ack_request : Request
ack_request = request_of ack (put key_txferid (codes "t1") [])

ack_request-id : ack_transfer_id ack_request ≡ ok (codes "t1")
unfolding ack_transfer_id get put trim_space
ack_request-id = refl

abbrev ack_body : Bytes
ack_body = codes "fd=0 4:/a/b ack-token=-1" ++ (10 ∷ [])

handle_ack-AllAccepted_example :
    ((handle_ack counting 5 ack_request ack_body).1 ≡ 5)
    ⊎ ((id : Bytes) × (records : List AckRecord) × (ack_transfer_id ack_request ≡ ok id)
        × (parse_request_item_records ack_item_keys (ack_record_of id) ack_body ≡ ok records)
        × AllAccepted
            (verify_hash lowered managed)
            records
            (counting.get_file_refs 5 id (lookups records)))
handle_ack-AllAccepted_example =
    handle_ack-AllAccepted counting 5 ack_request ack_body (λ id. verify_hash lowered managed)
      (λ id hs. refl)

-- Numbers in place of floats, as thousandths.
abbrev thousandths : Float ℕ
thousandths = record {
  lt = ltb;
  ge = λ a b. leb b a;
  add = λ a b. a + b;
  mul = λ a b. a * b / 1000;
  div = λ a b. a * 1000 / b;
  of_int = pos_part;
  nought = 0;
  one = 1000;
  huge = 9999000;
  ema_alpha = 800;
  ema_rest = 200;
  down_ratio_cut = 900;
  down_read_over_write_cut = 1100;
  up_read_over_write_cut = 100;
}

abbrev metrics : CompressionMetrics
metrics = record {
  logical_size = pos 10;
  wire_size = pos 20;
  prepare_latency = pos 3;
  write_latency = pos 4;
}

-- The first sample asks for weaker compression, the second too, and the third for nothing.
abbrev samples : List (CompressionMode × CompressionMetrics)
samples =
    (zstd_default, metrics)
    ∷ (zstd_default, metrics)
    ∷ (zstd_level1, record metrics { logical_size = pos 40 })
    ∷ []

decide_all-ladder_all_example :
    decide_all thousandths (new_compression_policy thousandths) samples
    ≡ ladder_all thousandths none steady samples
decide_all-ladder_all_example = decide_all-ladder_all thousandths samples
