-- ===== src/Bufpool.antt =====
-- The bucketed buffers of internal/bufpool: bufpool.go and growing.go. A pooled buffer is its
-- capacity, since what it held before is overwritten or cut off before it is read.
pub mod Growth
use tx.Base.{
  ℕ, zero, suc, ◌+◌, ◌-◌, ◌*◌, Bool, true, false, Option, none, some, List, [], ◌∷◌, ◌++◌, Result,
  ok, err, ◌>>=◌, if◌then◌else◌, leb, ltb, ◌==◌, length, take, drop, min, ◌||◌, not,
}
use tx.Base.Int.{ℤ, pos, leb_ℤ, ltb_ℤ, pos_part}
use tx.Base.Bytes.{Bytes}

abbrev pub kib : ℕ
kib = 1024

abbrev pub buckets : List ℕ
buckets =
    4096 ∷ 16384 ∷ 65536 ∷ 131072 ∷ 262144 ∷ 1048576 ∷ 2097152 ∷ 4194304 ∷ 8388608 ∷ 16777216
    ∷ 33554432 ∷ 67108864 ∷ []

abbrev pub max_bucket : ℕ
max_bucket = 67108864

abbrev pub max_pooled_bytes : ℕ
max_pooled_bytes = 33554432

pub first_bucket : List ℕ → ℕ → ℕ
first_bucket [] n = max_bucket
first_bucket (b ∷ bs) n = let rest = first_bucket bs n in if leb n b then b else rest

pub bucket_size : ℕ → ℕ
bucket_size n = first_bucket buckets n

pub data PoolError : Type 0 where
  not_positive too_large growing_too_large reader_failed stuck : PoolError

-- The capacity of the buffer that a caller gets.
unfoldable pub acquire : ℕ → Result PoolError ℕ
acquire size =
    if size == 0
    then err not_positive
    else (if ltb max_bucket size then err too_large else ok (bucket_size size))

-- Whether a released buffer of this capacity goes back to a pool.
unfoldable is_pooled : ℕ → Bool
is_pooled c = if c == 0 || ltb max_pooled_bytes c then false else bucket_size c == c

pub record Growing : Type 0 where
  pub buf : Bytes
  pub capacity : ℕ

abbrev pub growing_initial_bytes : ℕ
growing_initial_bytes = 65536

unfoldable pub initial_bytes : ℤ → ℕ
initial_bytes hint =
    if ltb_ℤ (pos 0) hint
    then (if ltb_ℤ hint (pos growing_initial_bytes) then pos_part hint else growing_initial_bytes)
    else growing_initial_bytes

unfoldable pub new_growing : ℤ → Result PoolError Growing
new_growing hint = acquire (initial_bytes hint) >>= λ c. ok (record { buf = []; capacity = c })

unfoldable pub grow : Growing → ℕ → Result PoolError Growing
grow g n =
    if leb (length g.buf + n) g.capacity
    then ok g
    else (if ltb max_bucket (length g.buf + n)
        then err growing_too_large
        else acquire (length g.buf + n) >>= λ c. ok (record g { capacity = c }))

unfoldable pub write : Growing → Bytes → Result PoolError Growing
write g p = grow g (length p) >>= λ h. ok (record h { buf = h.buf ++ p })

-- A reader that delivers its bytes in some pieces; each call of Read returns at most so many bytes of
-- the first piece, and io.EOF behind the last.
pub read : ℕ → List Bytes → Bytes × List Bytes
read room [] = ([], [])
read room (p ∷ ps) = if leb (length p) room then (p, ps) else (take room p, drop room p ∷ ps)

-- What the probe of a full buffer does with the byte that it got.
pub probe_round : Growing → Bytes → List Bytes → Result PoolError (Growing × List Bytes)
probe_round g [] ps = ok (g, ps)
probe_round g (b ∷ bs) ps = grow g 1 >>= λ h. ok (record h { buf = h.buf ++ (b ∷ []) }, ps)

-- One round of ReadFrom: into the spare room, or, when the buffer is full, a probe of one byte.
pub read_round : Growing → List Bytes → Result PoolError (Growing × List Bytes)
read_round g ps =
    let r = read (g.capacity - length g.buf) ps in
    let q = read 1 ps in
    if ltb (length g.buf) g.capacity
    then ok (record g { buf = g.buf ++ r.0 }, r.1)
    else probe_round g q.0 q.1

-- The loop, until the reader is at io.EOF.
pub read_from : ℕ → Growing → List Bytes → Result PoolError Growing
read_from fuel g [] = ok g
read_from zero g (p ∷ ps) = err stuck
read_from (suc fuel) g (p ∷ ps) = read_round g (p ∷ ps) >>= λ r. read_from fuel r.0 r.1

-- How a reader ends behind its pieces: with io.EOF or with another error.
pub data ReaderEnd : Type 0 where
  at_eof broken : ReaderEnd

abbrev pub end_read : ReaderEnd → Growing → Result PoolError Growing
end_read at_eof g = ok g
end_read broken g = err reader_failed

-- ReadFrom of a reader with either end; what a failed call leaves in the buffer is not kept.
unfoldable pub read_until : ReaderEnd → ℕ → Growing → List Bytes → Result PoolError Growing
read_until end fuel g ps = read_from fuel g ps >>= λ h. end_read end h
