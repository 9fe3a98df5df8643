-- ===== src/Base/Int.antt =====
-- C integers: `negsuc n` is -(n + 1). Division truncates towards zero.
use Prim.Native.Nat.{ℕ, suc, ◌-◌, ◌*◌, ◌/◌, ◌%◌, ◌^◌}
use mathlib.Core.Bool.{Bool, false}
use hob_os.Base.Tests.{ltb, leb, ◌==◌, if◌then◌else◌}

pub data ℤ : Type 0 where
  pos : ℕ → ℤ
  negsuc : ℕ → ℤ

-- -n
abbrev pub neg : ℕ → ℤ
neg n = if n == 0 then pos 0 else negsuc (n - 1)

-- a - b
abbrev pub sub_ℕ : ℕ → ℕ → ℤ
sub_ℕ a b = if leb b a then pos (a - b) else negsuc (b - a - 1)

abbrev pub is_zero : ℤ → Bool
is_zero (pos n) = n == 0
is_zero (negsuc n) = false

-- The value as an `int`.
abbrev pub wrap32 : ℤ → ℤ
wrap32 (pos n) =
    if ltb (n % 2 ^ 32) (2 ^ 31) then pos (n % 2 ^ 32) else negsuc (2 ^ 32 - n % 2 ^ 32 - 1)
wrap32 (negsuc n) =
    if leb (suc n % 2 ^ 32) (2 ^ 31) then neg (suc n % 2 ^ 32) else pos (2 ^ 32 - suc n % 2 ^ 32)

abbrev pub times10 : ℤ → ℤ
times10 (pos n) = pos (n * 10)
times10 (negsuc n) = negsuc (suc n * 10 - 1)

abbrev pub quot10 : ℤ → ℤ
quot10 (pos n) = pos (n / 10)
quot10 (negsuc n) = neg (suc n / 10)

-- The value as an unsigned integer of `2 ^ 8` or `2 ^ 64` values.
abbrev pub to_char : ℤ → ℕ
to_char (pos n) = n % 2 ^ 8
to_char (negsuc n) = 2 ^ 8 - 1 - n % 2 ^ 8

abbrev pub to_u64 : ℤ → ℕ
to_u64 (pos n) = n % 2 ^ 64
to_u64 (negsuc n) = 2 ^ 64 - 1 - n % 2 ^ 64
