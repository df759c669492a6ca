-- ===== src/Tests/Transfers.antt =====
-- Transfers, request bodies and acknowledgements at concrete inputs.
use tx.Base.{
  ◌++◌, ◌≤◌, length, ℕ, ◌≡◌, refl, inr, true, false, List, [], ◌∷◌, Result, ok, replicate,
  if◌then◌else◌, ◌==◌, ◌||◌, arith, map,
}
use tx.Base.Int.{ℤ, pos, negsuc}
use tx.Base.Bytes.{Bytes, codes, trim_space}
use tx.Base.Decimal.{itoa}
use tx.Encoding.Hash.{valid_hash_token}
use tx.Ftcp.Items.{contains_line_break, ack_item_keys, parse_request_item_records}
use tx.Ftcp.Ack.{ack_record_of}
use tx.Client.AckRoundTrip.{Outcome, missing, received, Progress, InRange, IsSendable}
use tx.Client.AckRoundTrip.Body.{encode_progress, record_of, encode_all-parse_request_item_records}
use tx.Client.Requests.Budget.{encode_request-fits}
use tx.Client.Requests.{
  encode_loop, encode_request, RequestChunk, RequestLimits, visit_encoded_requests,
}
use tx.Client.Requests.Chunks.{collect, encode_all, IsCut, visit_encoded_requests-IsCut}
use tx.Store.{Entry, Transfer, Managed, Store, running, entry_type_file}
use tx.Store.Acknowledge.{
  AckEntry, acknowledge_file_locked, acknowledge_transfer_files, set_transfer_files_state,
}
use tx.Store.Consistent.{IsConsistent}
use tx.Store.Consistent.Runs.{acknowledge_file_locked-IsConsistent}
use tx.Store.Consistent.Stores.{
  AllConsistent, acknowledge_transfer_files-AllConsistent, set_transfer_files_state-AllConsistent,
}

abbrev outcome : Outcome
outcome = received 4096 17 (codes "xxh3:ab") 4096 12 3

outcome-InRange : InRange outcome
unfolding valid_hash_token trim_space
outcome-InRange =
    (omega arith, omega arith, omega arith, omega arith, omega arith, omega arith, inr refl)

abbrev progress : List Progress
progress =
    record { file_id = 7; path = codes "/a/b c"; outcome = outcome }
    ∷ record { file_id = 8; path = codes "/a/d"; outcome = missing }
    ∷ []

first-IsSendable : IsSendable 7 (codes "/a/b c") outcome
unfolding trim_space contains_line_break itoa
first-IsSendable = record {
  id_fits = omega arith;
  not_blank = refl;
  no_break = refl;
  short = omega arith;
  in_range = outcome-InRange;
}

second-IsSendable : IsSendable 8 (codes "/a/d") missing
unfolding trim_space contains_line_break itoa
second-IsSendable = record {
  id_fits = omega arith;
  not_blank = refl;
  no_break = refl;
  short = omega arith;
  in_range = tt;
}

encode_all-parse_request_item_records_example :
    (body : Bytes) × (encode_all (encode_progress (codes "t1")) progress ≡ ok body)
    × (parse_request_item_records ack_item_keys (ack_record_of (codes "t1")) body
        ≡ ok (map record_of progress))
encode_all-parse_request_item_records_example =
    encode_all-parse_request_item_records (codes "t1") progress refl
      (first-IsSendable, (second-IsSendable, tt))

-- Each number as that many bytes, with at most seven bytes to a body.
abbrev limits : RequestLimits
limits = record { target = 5; max_size = 7 }

abbrev repeat : ℕ → Result Bytes Bytes
repeat n = ok (replicate n n)

visit_encoded_requests-IsCut_example :
    (chunks : List RequestChunk) × (enc : Bytes) × (visit_encoded_requests limits repeat collect
        (3 ∷ 4 ∷ 2 ∷ 6 ∷ [])
        []
      ≡ ok chunks)
    × (encode_all repeat (3 ∷ 4 ∷ 2 ∷ 6 ∷ []) ≡ ok enc)
    × IsCut limits repeat (3 ∷ 4 ∷ 2 ∷ 6 ∷ []) enc chunks
visit_encoded_requests-IsCut_example =
    visit_encoded_requests-IsCut limits repeat 3 (4 ∷ 2 ∷ 6 ∷ []) (
      (replicate 3 3, refl, omega arith, omega arith),
      (
        (replicate 4 4, refl, omega arith, omega arith),
        (
          (replicate 2 2, refl, omega arith, omega arith),
          ((replicate 6 6, refl, omega arith, omega arith), tt),
        ),
      ),
    )

abbrev encoded : Bytes
encoded = replicate 3 3 ++ replicate 4 4

encoded-ok : encode_request repeat 7 (3 ∷ 4 ∷ []) ≡ ok encoded
unfolding encode_request encode_loop
encoded-ok = refl

encode_request-fits_example : (encode_all repeat (3 ∷ 4 ∷ []) ≡ ok encoded) × (length encoded ≤ 7)
encode_request-fits_example = encode_request-fits repeat 7 (3 ∷ 4 ∷ []) encoded encoded-ok

abbrev entry : ℕ → ℕ → ℕ → Entry
entry state size acked = record {
  state = state;
  entry_type = entry_type_file;
  path_hash = 0;
  file_size = pos size;
  acked_size = acked;
}

abbrev counts : ℕ → ℤ
counts s = if (s == 1) || (s == 2) || (s == 4) then pos 1 else pos 0

-- Three files: one started, one running with ten bytes acknowledged, one missing.
abbrev transfer : Transfer
transfer = record {
  id = codes "t1";
  directory = codes "/a";
  num_entries = pos 3;
  num_files = pos 3;
  total_size = pos 60;
  done = 1;
  done_size = pos 10;
  entries = entry 1 10 0 ∷ entry 2 20 10 ∷ entry 4 30 0 ∷ [];
  state_counts = counts;
  expires_at = 100;
  complete_logged = false;
}

transfer-IsConsistent : IsConsistent transfer
transfer-IsConsistent = record {
  counts = (refl, refl, refl, refl, refl);
  done_count = refl;
  bytes = refl;
  capped = (omega arith, (omega arith, (omega arith, tt)));
  slots = omega arith;
  sized = omega arith;
}

abbrev managed : Managed
managed = record { deleted = false; transfer = transfer; window_hashes = [] }

acknowledge_file_locked-IsConsistent_example :
    IsConsistent (acknowledge_file_locked 60 50 managed 2 (pos 30)).1.transfer
acknowledge_file_locked-IsConsistent_example =
    acknowledge_file_locked-IsConsistent 60 50 managed 2 (pos 30) transfer-IsConsistent

abbrev store : Store
store = (codes "t1", managed) ∷ (codes "t2", record managed { deleted = true }) ∷ []

abbrev acks : List AckEntry
acks =
    record { txfer_id = codes "t1"; file_id = 1; ack_bytes = pos 20 }
    ∷ record { txfer_id = codes "t3"; file_id = 0; ack_bytes = negsuc 0 }
    ∷ record { txfer_id = codes "t1"; file_id = 0; ack_bytes = negsuc 0 }
    ∷ []

acknowledge_transfer_files-AllConsistent_example :
    AllConsistent (acknowledge_transfer_files 60 50 store acks).1
acknowledge_transfer_files-AllConsistent_example =
    acknowledge_transfer_files-AllConsistent 60 50 store acks
      (transfer-IsConsistent, (transfer-IsConsistent, tt))

set_transfer_files_state-AllConsistent_example :
    AllConsistent (set_transfer_files_state 60 50 store (codes "t1") (0 ∷ 1 ∷ 9 ∷ []) running).1
set_transfer_files_state-AllConsistent_example =
    set_transfer_files_state-AllConsistent 60 50 store (codes "t1") (0 ∷ 1 ∷ 9 ∷ []) running
      (omega arith) (transfer-IsConsistent, (transfer-IsConsistent, tt))
