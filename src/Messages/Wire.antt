-- ===== src/Messages/Wire.antt =====
-- `binary.BigEndian` and the conversion of times, as messages/message.go uses them.
use ssmlib.Common.{
  ℕ, ◌+◌, ◌-◌, ◌*◌, ◌/◌, ◌%◌, ◌^◌, ◌<◌, ◌≡◌, Bytes, [], ◌∷◌, ltb, if◌then◌else◌, arith,
}
use ssmlib.Common.Words.{u64}
use mathlib.Core.List.{foldl}

-- `PutUint32` and `PutUint64`.
abbrev pub be32 : ℕ → Bytes
be32 n = n / 2 ^ 24 % 256 ∷ n / 2 ^ 16 % 256 ∷ n / 2 ^ 8 % 256 ∷ n % 256 ∷ []

abbrev pub be64 : ℕ → Bytes
be64 n =
    n / 2 ^ 56 % 256
    ∷ n / 2 ^ 48 % 256
    ∷ n / 2 ^ 40 % 256
    ∷ n / 2 ^ 32 % 256
    ∷ n / 2 ^ 24 % 256
    ∷ n / 2 ^ 16 % 256
    ∷ n / 2 ^ 8 % 256
    ∷ n % 256
    ∷ []

-- `Uint32` and `Uint64`, on a slice of their width.
unfoldable pub big_endian : Bytes → ℕ
big_endian = foldl (λ acc b. acc * 256 + b) 0

pub big_endian-be32 : (n : ℕ) → n < 2 ^ 32 → big_endian (be32 n) ≡ n
unfolding big_endian
big_endian-be32 n h = omega arith

pub big_endian-be64 : (n : ℕ) → n < 2 ^ 64 → big_endian (be64 n) ≡ n
unfolding big_endian
big_endian-be64 n h = omega arith

-- `time.Time`: the zero value, or an instant that an int64 of nanoseconds since 1970 can name.
pub data Time : Type 0 where
  zero_time : Time
  unix_nano : ℕ → Time

-- `UnixMilli`, an int64. Before 1970 the quotient is rounded down.
unfoldable pub unix_milli : Time → ℕ
unix_milli zero_time = 2 ^ 64 - 62135596800000
unix_milli (unix_nano n) =
    if ltb n (2 ^ 63) then n / 1000000 else 2 ^ 64 - (2 ^ 64 - n + 999999) / 1000000

-- `time.Duration(ts) * time.Millisecond` wraps.
unfoldable pub parse_time : Bytes → Time
parse_time s = unix_nano (u64 (big_endian s * 1000000))

-- An instant from 1970 on is read back to the millisecond.
pub parse_time-unix_milli :
    (n : ℕ)
    → n < 2 ^ 63
    → parse_time (be64 (unix_milli (unix_nano n))) ≡ unix_nano (n / 1000000 * 1000000)
unfolding parse_time unix_milli
parse_time-unix_milli n h = ground (arith, big_endian-be64 (n / 1000000))
