-- ===== src/Go/Word.antt =====
-- Machine integers as bit patterns, natural numbers below 2 ^ w, with the wrap-around written out.
use gocb.Base.{ℕ, ◌+◌, ◌-◌, ◌%◌, ◌^◌, Bool, ltb}

-- Where a signed 64-bit pattern stands among the integers, moved up by 2 ^ 63.
abbrev pub rank64 : ℕ → ℕ
rank64 a = (a + 2 ^ 63) % 2 ^ 64

-- a < b at int64, the type of time.Duration.
abbrev pub lt_int64 : ℕ → ℕ → Bool
lt_int64 a b = ltb (rank64 a) (rank64 b)

abbrev pub add64 : ℕ → ℕ → ℕ
add64 a b = (a + b) % 2 ^ 64

abbrev pub add32 : ℕ → ℕ → ℕ
add32 a b = (a + b) % 2 ^ 32

abbrev pub sub32 : ℕ → ℕ → ℕ
sub32 a b = (a + 2 ^ 32 - b) % 2 ^ 32
