-- ===== src/Aead.antt =====
-- internal/aead/session.go: recordCipher, one direction of an encrypted session. The AEAD is the
-- argument `Aeads`; its keys stand for the cipher objects.
pub mod Steps
pub mod Records
use tx.Base.{
  ℕ, zero, suc, ◌+◌, ◌%◌, ◌^◌, Option, none, some, List, [], ◌∷◌, ◌++◌, Result, ok, err, ◌>>=◌,
  or_err, if◌then◌else◌, leb, ◌==◌, take,
}
use tx.Base.Bytes.{Bytes}
use tx.Encoding.Hash.{be_bytes}

pub data Algorithm : Type 0 where
  aes chacha : Algorithm

-- What the code calls of an AEAD: newAEAD, Seal and Open, with the nonce before the text and the
-- associated data behind it.
pub record Aeads (K : Type 0) : Type 0 where
  pub new_aead : Algorithm → Bytes → Option K
  pub seal_with : K → Bytes → Bytes → Bytes → Bytes
  pub open_with : K → Bytes → Bytes → Bytes → Option Bytes

pub record RecordCipher (K : Type 0) : Type 0 where
  pub alg : Algorithm
  pub aead : K
  pub n : ℕ

pub data CipherError : Type 0 where
  nonce_space_exhausted open_failed rekey_failed : CipherError

abbrev pub rekey_interval : ℕ
rekey_interval = 16384

abbrev pub max_uint64 : ℕ
max_uint64 = 18446744073709551615

abbrev pub reversed : Bytes → Bytes
reversed [] = []
reversed (x ∷ xs) = reversed xs ++ (x ∷ [])

-- Four zero bytes, and the counter in the byte order of the algorithm.
unfoldable pub set_nonce : Algorithm → ℕ → Bytes
set_nonce aes n = 0 ∷ 0 ∷ 0 ∷ 0 ∷ be_bytes n
set_nonce chacha n = 0 ∷ 0 ∷ 0 ∷ 0 ∷ reversed (be_bytes n)

abbrev pub zeros : ℕ → Bytes
zeros zero = []
zeros (suc n) = 0 ∷ zeros n

module _ {K : Type 0} (a : Aeads K) where
  unfoldable pub rekey : RecordCipher K → Result CipherError (RecordCipher K)
  rekey c =
      let out = a.seal_with c.aead (set_nonce c.alg max_uint64) (zeros 32) [] in
      or_err (a.new_aead c.alg (take 32 out)) rekey_failed >>= λ k. ok (record c { aead = k })

  unfoldable pub advance : RecordCipher K → Result CipherError (RecordCipher K)
  advance c =
      let c₁ = record c { n = (c.n + 1) % 2 ^ 64 } in
      if c₁.n % rekey_interval == 0 then rekey c₁ else ok c₁

  -- The sealed record and the cipher for the next one.
  unfoldable pub seal : RecordCipher K → Bytes → Bytes → Result CipherError (Bytes × RecordCipher K)
  seal c plaintext ad =
      if leb max_uint64 c.n
      then err nonce_space_exhausted
      else advance c >>= λ c₁. ok (a.seal_with c.aead (set_nonce c.alg c.n) plaintext ad, c₁)

  unfoldable pub open_record :
      RecordCipher K → Bytes → Bytes → Result CipherError (Bytes × RecordCipher K)
  open_record c ciphertext ad =
      if leb max_uint64 c.n
      then err nonce_space_exhausted
      else or_err (a.open_with c.aead (set_nonce c.alg c.n) ciphertext ad) open_failed
        >>= λ plaintext. (advance c >>= λ c₁. ok (plaintext, c₁))
