-- ===== src/Printf/RoundTrip.antt =====
-- The text of a number, read as a number again.
use hob_os.Base.{ℕ, ◌+◌, ◌-◌, ◌%◌, ◌^◌, ◌≤◌, ◌<◌, ◌≡◌, ◌≢◌, List, length, arith}
use hob_os.Base.Int.{pos, to_char}
use hob_os.Base.Run.{◌>>=◌, Ends, weaken}
use hob_os.Printf.{Printer, int_chars, d_to_s}
use hob_os.Printf.Numbers.{Text, decimal, length-decimal}
use hob_os.Printf.Digits.{
  digits, digits_pos, digits-le, int_chars-digits, value, value-decimal-digits,
}
use hob_os.Printf.Format.{d_to_s-decimal}

-- For a number from 1 to 214748364, `int_chars` and then `d_to_s` end, and what they leave in `buf`
-- at the index returned is a text that reads as that number, with no more digits than it takes.
pub int_chars-d_to_s :
    (n : ℕ) (p : Printer)
    → n ≢ 0
    → n < 214748365
    → Ends
        (λ at p'. (t : List ℕ) × Text p'.buf at t × (value 0 t ≡ n) × (length t ≡ digits 9 n))
        ((do nr_chars ← int_chars (pos n); d_to_s (pos n) (to_char nr_chars)) p)
int_chars-d_to_s n p nz h =
    let d = digits 9 n in
    let d9 : d ≤ 9 = digits-le 9 n in
    let pos_d : 0 < d = digits_pos 9 n nz (omega arith) in
    let same : (d - 1) % 2 ^ 8 + 1 ≡ d = omega arith in
    rw (int_chars-digits n p nz h) (
      weaken (d_to_s-decimal n ((d - 1) % 2 ^ 8) p (omega arith)) λ at p' (a, t, e, f).
        rw a (decimal d n, rw same at t, value-decimal-digits n (omega arith), length-decimal d n))
