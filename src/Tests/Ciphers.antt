-- ===== src/Tests/Ciphers.antt =====
-- The record ciphers at concrete inputs: a stand-in AEAD without secrecy, whose Seal puts a zero
-- before the text and whose Open drops it.
use tx.Base.{◌++◌, true, ◌≡◌, refl, some, List, [], ◌∷◌, ok, drop, arith}
use tx.Base.Bytes.{Bytes}
use tx.Aead.{Aeads, chacha, RecordCipher, zeros, set_nonce, advance, rekey, seal}
use tx.Aead.Steps.{Inverts, seal_all, open_all, open_all-seal_all}
use tx.Aead.Records.{seal_payload, read_message}
use tx.Aead.Records.RoundTrip.{Expands, seal_message, read_message-sealed}

abbrev echo : Aeads Bytes
echo = record {
  new_aead = λ alg key. some key;
  seal_with = λ k nonce p ad. 0 ∷ p;
  open_with = λ k nonce q ad. some (drop 1 q);
}

echo-Inverts : Inverts echo
echo-Inverts k nonce p ad = refl

-- One record before a rekey.
abbrev near_rekey : RecordCipher Bytes
near_rekey = record { alg = chacha; aead = 9 ∷ []; n = 16383 }

abbrev three_records : List (Bytes × Bytes)
three_records = (1 ∷ 2 ∷ [], 0 ∷ []) ∷ ([], 1 ∷ []) ∷ (7 ∷ [], []) ∷ []

abbrev sealed_records : List (Bytes × Bytes)
sealed_records = (0 ∷ 1 ∷ 2 ∷ [], 0 ∷ []) ∷ (0 ∷ [], 1 ∷ []) ∷ (0 ∷ 7 ∷ [], []) ∷ []

abbrev after_rekey : RecordCipher Bytes
after_rekey = record { alg = chacha; aead = 0 ∷ zeros 31; n = 16386 }

three-sealed : seal_all echo near_rekey three_records ≡ ok (sealed_records, after_rekey)
three-sealed = unfold seal advance rekey set_nonce in refl

open_all-seal_all_example :
    open_all echo near_rekey sealed_records ≡ ok (three_records, after_rekey)
open_all-seal_all_example =
    open_all-seal_all echo echo-Inverts near_rekey three_records (sealed_records, after_rekey)
      three-sealed

-- A stand-in whose Seal puts a tag of 16 zeros before the text.
abbrev tagged : Aeads Bytes
tagged = record {
  new_aead = λ alg key. some key;
  seal_with = λ k nonce p ad. zeros 16 ++ p;
  open_with = λ k nonce q ad. some (drop 16 q);
}

tagged-Inverts : Inverts tagged
tagged-Inverts k nonce p ad = refl

tagged-Expands : Expands tagged
tagged-Expands k nonce p ad = omega arith

abbrev after_tags : RecordCipher Bytes
after_tags = record { alg = chacha; aead = zeros 32; n = 16386 }

abbrev two_payloads : List Bytes
two_payloads = (1 ∷ 2 ∷ []) ∷ (3 ∷ []) ∷ []

abbrev sealed_message : Bytes
sealed_message =
    0
    ∷ 18
    ∷ 0
    ∷ (zeros 16 ++ (1 ∷ 2 ∷ 0 ∷ 17 ∷ 0 ∷ (zeros 16 ++ (3 ∷ 0 ∷ 17 ∷ 1 ∷ (zeros 16 ++ (4 ∷ []))))))

message-sealed :
    seal_message tagged near_rekey two_payloads (4 ∷ []) ≡ ok (sealed_message, after_tags)
message-sealed = unfold seal_payload seal advance rekey set_nonce in refl

read_message-sealed_example :
    read_message tagged 5 near_rekey true (sealed_message ++ (0 ∷ 9 ∷ []))
    ≡ ok (1 ∷ 2 ∷ 3 ∷ 4 ∷ [], after_tags, 0 ∷ 9 ∷ [])
read_message-sealed_example =
    read_message-sealed tagged tagged-Inverts tagged-Expands two_payloads (4 ∷ []) (0 ∷ 9 ∷ []) 5
      near_rekey true (sealed_message, after_tags) (omega arith, (omega arith, tt)) (omega arith)
      message-sealed
