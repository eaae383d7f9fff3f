-- ===== src/Prelude/Int64.antt =====
-- Go's int64: an integer that every operation brings back into the range of 64 bits.
use jiade.Prelude.{ℕ, ◌-◌, ◌%◌, ◌<◌, ◌≡◌, arith, ltb, if◌then◌else◌}
use jiade.Prelude.Int.{ℤ, pos, negsuc, ◌+ℤ◌, ◌-ℤ◌, ◌*ℤ◌, quot, rem}

abbrev pub half_range : ℕ
half_range = 9223372036854775808

abbrev pub full_range : ℕ
full_range = 18446744073709551616

-- math.MaxInt64
abbrev pub max_int64 : ℤ
max_int64 = pos 9223372036854775807

-- The values that an int64 can hold.
abbrev pub IsInt64 : ℤ → Type 0
IsInt64 (pos n) = n < half_range
IsInt64 (negsuc n) = n < half_range

-- Two's complement wrap-around; -(n + 1) is the complement of the bits of n.
unfoldable pub wrap64 : ℤ → ℤ
wrap64 (pos n) =
    let m = n % full_range in if ltb m half_range then pos m else negsuc (full_range - 1 - m)
wrap64 (negsuc n) =
    let m = n % full_range in if ltb m half_range then negsuc m else pos (full_range - 1 - m)

abbrev pub add64 : ℤ → ℤ → ℤ
add64 a b = wrap64 (a +ℤ b)

abbrev pub sub64 : ℤ → ℤ → ℤ
sub64 a b = wrap64 (a -ℤ b)

abbrev pub mul64 : ℤ → ℤ → ℤ
mul64 a b = wrap64 (a *ℤ b)

abbrev pub div64 : ℤ → ℤ → ℤ
div64 a b = wrap64 (quot a b)

abbrev pub rem64 : ℤ → ℤ → ℤ
rem64 a b = rem a b

-- A value in the range is left as it is.
pub wrap64_self : (a : ℤ) → IsInt64 a → wrap64 a ≡ a
unfolding wrap64
wrap64_self (pos n) h = ground arith
wrap64_self (negsuc n) h = ground arith

-- Every wrapped value is in the range.
pub wrap64-IsInt64 : (a : ℤ) → IsInt64 (wrap64 a)
unfolding wrap64
wrap64-IsInt64 (pos n) = ground arith
wrap64-IsInt64 (negsuc n) = ground arith
