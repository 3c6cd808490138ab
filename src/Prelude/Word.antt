-- ===== src/Prelude/Word.antt =====
-- Go's signed machine integers. `int` and `int64` have 64 bits, as on the platforms of the program.
use open_peacock.Prelude.{
  zero, suc, ◌/◌, ℕ, ◌-◌, ◌%◌, ◌^◌, ◌≤◌, ◌<◌, ◌≡◌, arith, ltb, if◌then◌else◌,
}
use open_peacock.Prelude.Int.{ℤ, pos, negsuc, pos_part, neg_part, ◌+ℤ◌, ◌-ℤ◌, ◌*ℤ◌, ◌≤ℤ◌, ◌<ℤ◌}
use open_peacock.Prelude.Run.{Run, ok, panic}

-- The number that a 32-bit pattern stands for.
abbrev pub signed_32 : ℕ → ℤ
signed_32 w = if ltb w (2 ^ 31) then pos w else negsuc (2 ^ 32 - 1 - w)

abbrev pub signed_64 : ℕ → ℤ
signed_64 w = if ltb w (2 ^ 63) then pos w else negsuc (2 ^ 64 - 1 - w)

-- The conversions `int32(z)` and `int64(z)`: two's complement, the high bits dropped.
unfoldable pub int32 : ℤ → ℤ
int32 (pos n) = signed_32 (n % 2 ^ 32)
int32 (negsuc n) = signed_32 (2 ^ 32 - 1 - n % 2 ^ 32)

unfoldable pub int64 : ℤ → ℤ
int64 (pos n) = signed_64 (n % 2 ^ 64)
int64 (negsuc n) = signed_64 (2 ^ 64 - 1 - n % 2 ^ 64)

abbrev pub max_int32 : ℤ
max_int32 = pos (2 ^ 31 - 1)

abbrev pub max_int64 : ℤ
max_int64 = pos (2 ^ 63 - 1)

abbrev pub IsInt32 : ℤ → Type 0
IsInt32 z = (pos_part z < 2 ^ 31) × (neg_part z ≤ 2 ^ 31)

abbrev pub IsInt64 : ℤ → Type 0
IsInt64 z = (pos_part z < 2 ^ 63) × (neg_part z ≤ 2 ^ 63)

-- A number that fits is unchanged.
pub int32_id : (z : ℤ) → IsInt32 z → int32 z ≡ z
unfolding int32
int32_id (pos n) h = ground arith
int32_id (negsuc n) h = ground arith

pub int64_id : (z : ℤ) → IsInt64 z → int64 z ≡ z
unfolding int64
int64_id (pos n) h = ground arith
int64_id (negsuc n) h = ground arith

pub int32-IsInt32 : (z : ℤ) → IsInt32 (int32 z)
unfolding int32
int32-IsInt32 (pos n) = ground arith
int32-IsInt32 (negsuc n) = ground arith

pub int64-IsInt64 : (z : ℤ) → IsInt64 (int64 z)
unfolding int64
int64-IsInt64 (pos n) = ground arith
int64-IsInt64 (negsuc n) = ground arith

-- Machine addition and subtraction.
abbrev pub add32 : ℤ → ℤ → ℤ
add32 a b = int32 (a +ℤ b)

abbrev pub sub32 : ℤ → ℤ → ℤ
sub32 a b = int32 (a -ℤ b)

abbrev pub add64 : ℤ → ℤ → ℤ
add64 a b = int64 (a +ℤ b)

abbrev pub sub64 : ℤ → ℤ → ℤ
sub64 a b = int64 (a -ℤ b)

-- The product, which wraps, and Go's quotient, truncated towards zero; a zero divisor panics.
abbrev pub mul64 : ℤ → ℤ → ℤ
mul64 a b = int64 (a *ℤ b)

abbrev pub quot_ℤ : ℤ → ℕ → ℤ
quot_ℤ (pos n) d = pos (n / d)
quot_ℤ (negsuc n) d = pos 0 -ℤ pos (suc n / d)

abbrev pub quot64 : ℤ → ℤ → Run ℤ
quot64 a (pos zero) = panic
quot64 a (pos (suc d)) = ok (quot_ℤ a (suc d))
quot64 a (negsuc d) = ok (int64 (pos 0 -ℤ quot_ℤ a (suc d)))

-- A sum below the maximum does not wrap.
pub add64_fits :
    (v c : ℤ) → IsInt64 v → IsInt64 c → pos 0 ≤ℤ c → v +ℤ c <ℤ max_int64 → IsInt64 (v +ℤ c)
unfolding ◌+ℤ◌
add64_fits v c hv hc p h = ground arith

pub sub64-max : (c : ℤ) → IsInt64 c → pos 0 ≤ℤ c → sub64 max_int64 c ≡ max_int64 -ℤ c
unfolding ◌-ℤ◌
sub64-max c hc p = int64_id _ (fits c hc p)
  where
    fits : (c : ℤ) → IsInt64 c → pos 0 ≤ℤ c → IsInt64 (max_int64 -ℤ c)
    fits c hc p = ground arith

pub add32_fits :
    (v c : ℤ) → IsInt32 v → IsInt32 c → pos 0 ≤ℤ c → v +ℤ c <ℤ max_int32 → IsInt32 (v +ℤ c)
unfolding ◌+ℤ◌
add32_fits v c hv hc p h = ground arith

pub sub32-max : (c : ℤ) → IsInt32 c → pos 0 ≤ℤ c → sub32 max_int32 c ≡ max_int32 -ℤ c
unfolding ◌-ℤ◌
sub32-max c hc p = int32_id _ (fits c hc p)
  where
    fits : (c : ℤ) → IsInt32 c → pos 0 ≤ℤ c → IsInt32 (max_int32 -ℤ c)
    fits c hc p = ground arith

pub add32_fits_le : (v c : ℤ) → pos 0 ≤ℤ v → pos 0 ≤ℤ c → v +ℤ c ≤ℤ max_int32 → IsInt32 (v +ℤ c)
unfolding ◌+ℤ◌
add32_fits_le v c p q h = ground arith

pub sub32_fits : (v c : ℤ) → v ≤ℤ max_int32 → pos 0 ≤ℤ c → c ≤ℤ v → IsInt32 (v -ℤ c)
unfolding ◌-ℤ◌
sub32_fits v c m p h = ground arith
