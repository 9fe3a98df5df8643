-- ===== src/Printf/Digits.antt =====
-- How many characters `int_chars` counts, and what the decimal digits stand for.
use hob_os.Base.{
  ℕ, zero, suc, ◌+◌, ◌-◌, ◌*◌, ◌/◌, ◌%◌, ◌^◌, ◌<◌, ◌≤◌, ◌≡◌, ◌≢◌, refl, List, [], ◌∷◌, ◌++◌, ◌==◌,
  if◌then◌else◌, arith, Bool-cases, inl, inr, ap, ==→eq, ◌∙◌, ne→==, lt→ltb,
}
use native.Mathlib.Nat.{pow-suc}
use hob_os.Base.Int.{pos, sub_ℕ}
use hob_os.Base.Run.{ok}
use hob_os.Printf.{Printer, chars_loop, int_chars}
use hob_os.Printf.Numbers.{decimal}

-- The number of decimal digits of `n`, where `k` is enough for them.
unfoldable pub digits : ℕ → ℕ → ℕ
digits zero n = 0
digits (suc k) n = if n == 0 then 0 else suc (digits k (n / 10))

chars_loop-digits :
    (k i size : ℕ) (p : Printer)
    → i < 10 ^ k
    → chars_loop (suc k) (pos i) size p ≡ ok (size + digits k i) p
unfolding chars_loop digits
chars_loop-digits zero i size p h =
    let z : i ≡ 0 = omega arith in rw z (ap (λ n. ok n p) (omega arith))
chars_loop-digits (suc k) i size p h = elim (Bool-cases (i == 0)) [
  | inl e ↦ rw e (ap (λ n. ok n p) (omega arith))
  | inr e ↦ rw e (
      chars_loop-digits k (i / 10) (size + 1) p (omega (arith, pow-suc 10 k))
      ∙ ap (λ n. ok n p) (omega arith))
]

digits_times10 : (k n : ℕ) → n ≢ 0 → digits (suc k) (n * 10) ≡ suc (digits k n)
unfolding digits
digits_times10 k n h =
    rw (ne→== (n * 10) 0 (omega arith)) (ap (λ m. suc (digits k m)) (omega arith))

pub digits_pos : (k n : ℕ) → n ≢ 0 → 0 < k → 0 < digits k n
unfolding digits
digits_pos zero n h l = absurd (omega arith)
digits_pos (suc k) n h l = rw (ne→== n 0 h) (omega arith)

pub digits-le : (k n : ℕ) → digits k n ≤ k
unfolding digits
digits-le zero n = omega arith
digits-le (suc k) n = ground (arith, digits-le k (n / 10))

sub_two : (d : ℕ) → 0 < d → sub_ℕ (0 + suc d) 2 ≡ pos (d - 1)
sub_two d h = ground arith

-- For a positive number that the code can multiply by 10, `int_chars` is one less than the digits.
pub int_chars-digits :
    (n : ℕ) (p : Printer)
    → n ≢ 0
    → n < 214748365
    → int_chars (pos n) p ≡ ok (pos (digits 9 n - 1)) p
unfolding int_chars
int_chars-digits n p nz h =
    let small : n * 10 % 2 ^ 32 ≡ n * 10 = omega arith in
    rw
      (
        small,
        lt→ltb (n * 10) (2 ^ 31) (omega arith),
        chars_loop-digits 10 (n * 10) 0 p (omega arith),
        digits_times10 9 n nz,
      )
      (ap (λ d. ok d p) (sub_two (digits 9 n) (digits_pos 9 n nz (omega arith))))

pub lt-pow-digits : (k n : ℕ) → n < 10 ^ k → n < 10 ^ digits k n
unfolding digits
lt-pow-digits zero n h = h
lt-pow-digits (suc k) n h = elim (Bool-cases (n == 0)) [
  | inl e ↦ rw e (omega (arith, ==→eq n 0 e))
  | inr e ↦ rw e (
      omega (
        arith,
        pow-suc 10 (digits k (n / 10)),
        lt-pow-digits k (n / 10) (omega (arith, pow-suc 10 k)),
      ))
]

-- The number that a list of decimal digits stands for, behind the number `acc`.
unfoldable pub value : ℕ → List ℕ → ℕ
value acc [] = acc
value acc (c ∷ cs) = value (acc * 10 + (c - 48)) cs

value-append : (acc : ℕ) (xs ys : List ℕ) → value acc (xs ++ ys) ≡ value (value acc xs) ys
unfolding value
value-append acc [] ys = refl
value-append acc (x ∷ xs) ys = value-append (acc * 10 + (x - 48)) xs ys

value-decimal : (k acc n : ℕ) → n < 10 ^ k → value acc (decimal k n) ≡ acc * 10 ^ k + n
unfolding decimal value
value-decimal zero acc n h = omega arith
value-decimal (suc k) acc n h =
    rw (value-append, value-decimal k acc (n / 10) (omega (arith, pow-suc 10 k)), pow-suc 10 k)
      (omega arith)

-- The digits of a number stand for it.
pub value-decimal-digits : (n : ℕ) → n < 10 ^ 9 → value 0 (decimal (digits 9 n) n) ≡ n
value-decimal-digits n h = value-decimal (digits 9 n) 0 n (lt-pow-digits 9 n h) ∙ omega arith
