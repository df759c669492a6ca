-- ===== src/Encoding/Path/Prefix.antt =====
-- CommonPrefixLen of internal/utils/strings.go against the byte-by-byte definition of a common prefix.
use tx.Base.{
  ℕ, zero, suc, ◌+◌, ◌≤◌, ◌<◌, ◌≡◌, refl, ◌≢◌, true, [], ◌∷◌, ◌++◌, ltb, ◌==◌, if◌then◌else◌,
  length, take, drop, get_or, take-append-drop, arith,
}
use tx.Base.Bytes.{Bytes, bytes_eq}
use tx.Encoding.Path.{word_loop, byte_loop, common_prefix_len}

-- How many leading bytes two strings share.
pub shared : Bytes → Bytes → ℕ
shared [] b = 0
shared (x ∷ a) [] = 0
shared (x ∷ a) (y ∷ b) = if x == y then suc (shared a b) else 0

pub shared-le : (a b : Bytes) → (shared a b ≤ length a) × (shared a b ≤ length b)
unfolding shared
shared-le [] b = omega arith
shared-le (x ∷ a) [] = omega arith
shared-le (x ∷ a) (y ∷ b) = ground (arith, shared-le a b)

take-shared : (n : ℕ) (a b : Bytes) → n ≤ shared a b → take n a ≡ take n b
unfolding shared
take-shared zero a b h = refl
take-shared (suc n) [] b h = absurd (omega arith)
take-shared (suc n) (x ∷ a) [] h = absurd (omega arith)
take-shared (suc n) (x ∷ a) (y ∷ b) h = ground (arith, take-shared n a b)

equal_byte :
    (a b : Bytes) (i : ℕ)
    → i ≤ shared a b
    → i < length a
    → i < length b
    → get_or a i 0 ≡ get_or b i 0
    → i + 1 ≤ shared a b
unfolding shared
equal_byte [] b i s h k e = absurd (omega arith)
equal_byte (x ∷ a) [] i s h k e = absurd (omega arith)
equal_byte (x ∷ a) (y ∷ b) zero s h k e = ground arith
equal_byte (x ∷ a) (y ∷ b) (suc i) s h k e = ground (arith, equal_byte a b i)

unequal_byte : (a b : Bytes) (i : ℕ) → i ≤ shared a b → get_or a i 0 ≢ get_or b i 0 → shared a b ≡ i
unfolding shared
unequal_byte [] b i s e = omega arith
unequal_byte (x ∷ a) [] i s e = omega arith
unequal_byte (x ∷ a) (y ∷ b) zero s e = ground arith
unequal_byte (x ∷ a) (y ∷ b) (suc i) s e = ground (arith, unequal_byte a b i)

equal_start :
    (k : ℕ) (a b : Bytes)
    → bytes_eq (take k a) (take k b) ≡ true
    → k ≤ length a
    → k ≤ length b
    → k ≤ shared a b
unfolding shared
equal_start zero a b e h l = omega arith
equal_start (suc k) [] b e h l = absurd (omega arith)
equal_start (suc k) (x ∷ a) [] e h l = absurd (omega arith)
equal_start (suc k) (x ∷ a) (y ∷ b) e h l = ground (arith, equal_start k a b)

equal_word :
    (k i : ℕ) (a b : Bytes)
    → bytes_eq (take k (drop i a)) (take k (drop i b)) ≡ true
    → i + k ≤ length a
    → i + k ≤ length b
    → i ≤ shared a b
    → i + k ≤ shared a b
unfolding shared
equal_word k zero a b e h l s = omega (arith, equal_start k a b e)
equal_word k (suc i) [] b e h l s = absurd (omega arith)
equal_word k (suc i) (x ∷ a) [] e h l s = absurd (omega arith)
equal_word k (suc i) (x ∷ a) (y ∷ b) e h l s = ground (arith, equal_word k i a b e)

module _ (a b : Bytes) (common : ℕ) (la : common ≤ length a) (lb : common ≤ length b) where
  word_loop-le-shared : (fuel i : ℕ) → i ≤ shared a b → word_loop fuel a b common i ≤ shared a b
  unfolding word_loop
  word_loop-le-shared zero i h = h
  word_loop-le-shared (suc fuel) i h =
      ground (arith, equal_word 8 i a b, word_loop-le-shared fuel (i + 8))

  byte_loop-shared :
      (fuel i : ℕ)
      → i ≤ shared a b
      → shared a b ≤ common
      → common < i + fuel
      → byte_loop fuel a b common i ≡ shared a b
  unfolding byte_loop
  byte_loop-shared zero i h s f = absurd (omega arith)
  byte_loop-shared (suc fuel) i h s f =
      ground (arith, equal_byte a b i, unequal_byte a b i, byte_loop-shared fuel (i + 1))

  loops-shared :
      shared a b ≤ common
      → byte_loop (suc common) a b common (word_loop (suc common) a b common 0) ≡ shared a b
  loops-shared s =
      byte_loop-shared (suc common) (word_loop (suc common) a b common 0)
        (word_loop-le-shared (suc common) 0 (omega arith)) s (omega arith)

-- Comparing whole words first and bytes afterwards finds exactly the leading bytes that the two
-- strings share, for every pair of strings.
pub common_prefix_len-shared : (a b : Bytes) → common_prefix_len a b ≡ shared a b
unfolding common_prefix_len
common_prefix_len-shared a b =
    loops-shared a b (if ltb (length b) (length a) then length b else length a) (ground arith)
      (ground arith) (ground (arith, shared-le a b))

-- What a front coder relies on: a common prefix of `a` and the rest of `b` make `b`.
pub take-common-drop : (n : ℕ) (a b : Bytes) → n ≤ common_prefix_len a b → take n a ++ drop n b ≡ b
take-common-drop n a b h =
    rw (take-shared n a b (rw common_prefix_len-shared at h)) (take-append-drop n b)

pub common_prefix_len-le :
    (a b : Bytes) → (common_prefix_len a b ≤ length a) × (common_prefix_len a b ≤ length b)
common_prefix_len-le a b = rw common_prefix_len-shared (shared-le a b)
