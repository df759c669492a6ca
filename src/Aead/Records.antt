-- ===== src/Aead/Records.antt =====
-- The records of internal/aead/session.go on the wire: how a payload is sealed as a record, and how
-- the records of a message are read. The input is what the peer sends until it closes the connection;
-- a failure ends the session, so what it leaves is not kept.
pub mod RoundTrip
use tx.Base.{
  ℕ, zero, suc, ◌+◌, ◌*◌, ◌/◌, ◌%◌, Bool, true, false, ◌&&◌, List, [], ◌∷◌, ◌++◌, Result, ok, err,
  ◌>>=◌, if◌then◌else◌, leb, ltb, ◌==◌, length, take, drop,
}
use tx.Base.Bytes.{Bytes}
use tx.Aead.{Aeads, RecordCipher, CipherError, seal, open_record}

pub data SessionError : Type 0 where
  record_too_large invalid_length peer_closed unexpected_eof stuck : SessionError
  unexpected_kind : ℕ → SessionError
  cipher_failed : CipherError → SessionError

abbrev pub record_data : ℕ
record_data = 0

abbrev pub record_end : ℕ
record_end = 1

abbrev pub aead_tag_size : ℕ
aead_tag_size = 16

abbrev pub max_record_ciphertext : ℕ
max_record_ciphertext = 65535

abbrev pub or_cipher : {A : Type 0} → Result CipherError A → Result SessionError A
or_cipher (ok a) = ok a
or_cipher (err e) = err (cipher_failed e)

-- The length as a big-endian uint16, and the kind.
abbrev pub record_header : ℕ → ℕ → Bytes
record_header n kind = n / 256 % 256 ∷ n % 256 ∷ kind ∷ []

-- Whether the stream ends before a header: cleanly, if it does so before the first byte of a message.
abbrev pub header_missing : Bool → Bytes → SessionError
header_missing at_start [] = if at_start then peer_closed else unexpected_eof
header_missing at_start (x ∷ xs) = unexpected_eof

module _ {K : Type 0} (a : Aeads K) where
  unfoldable pub seal_payload :
      RecordCipher K → ℕ → Bytes → Result SessionError (Bytes × RecordCipher K)
  seal_payload c kind payload =
      let n = length payload + aead_tag_size in
      let hdr = record_header n kind in
      if ltb max_record_ciphertext n
      then err record_too_large
      else or_cipher (seal a c payload hdr) >>= λ s. ok (hdr ++ s.0, s.1)

  -- A record whose header was read: its kind, its payload, the cipher and the rest of the input.
  unfoldable pub read_body :
      RecordCipher K
      → ℕ
      → ℕ
      → Bytes
      → Bytes
      → Result SessionError (ℕ × Bytes × RecordCipher K × Bytes)
  read_body c n kind hdr input =
      if ltb n aead_tag_size
      then err invalid_length
      else (if ltb (length input) n
          then err unexpected_eof
          else or_cipher (open_record a c (take n input) hdr) >>= λ s.
              ok (kind, s.0, s.1, drop n input))

  unfoldable pub read_record :
      RecordCipher K → Bool → Bytes → Result SessionError (ℕ × Bytes × RecordCipher K × Bytes)
  read_record c at_start (x ∷ y ∷ kind ∷ input) =
      read_body c (x * 256 + y) kind (x ∷ y ∷ kind ∷ []) input
  read_record c at_start input = err (header_missing at_start input)

  -- Read until io.EOF: the bytes of one message.
  unfoldable pub read_message :
      ℕ → RecordCipher K → Bool → Bytes → Result SessionError (Bytes × RecordCipher K × Bytes)
  read_message zero c at_start input = err stuck
  read_message (suc fuel) c at_start input =
      read_record c at_start input >>= λ (kind, payload, c₁, rest).
      if (kind == record_data) && ltb 0 (length payload)
      then (read_message fuel c₁ false rest >>= λ t. ok (payload ++ t.0, t.1, t.2))
      else (if kind == record_end then ok (payload, c₁, rest) else err (unexpected_kind kind))
