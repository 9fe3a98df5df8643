-- ===== src/Printf/Faults.antt =====
-- Formats and arguments at which `vprintf` writes or reads out of range.
use hob_os.Base.{ℕ, ◌≡◌, List, [], ◌∷◌, ◌++◌, refl}
use hob_os.Base.Int.{pos}
use hob_os.Base.Run.{fault, Cmd, Ends, Ends-eq, ◌>>◌}
use hob_os.Printf.{
  Printer, Arg, int, write, d_to_s, chars_loop, int_chars, take_int, convert, vprintf_loop, vprintf,
}
use hob_os.Printf.Format.{
  Piece, plain, str, dec, hex, long_hex, ArePrintable, format_of, args_of, Sent, vprintf_loop_plain,
  convert_s, convert_d, convert_x, convert_l,
}

-- `%d` with the argument 0 writes outside `buf`.
convert-zero :
    (format : List ℕ) (rest : List Arg) (p : Printer)
    → p.args ≡ int (pos 0) ∷ rest
    → vprintf_loop (b'%' ∷ b'd' ∷ format) p ≡ fault
unfolding vprintf_loop convert take_int int_chars chars_loop d_to_s write
convert-zero format rest p e = rw e

module _ (c : Cmd Printer (Unit {0})) (targs : List Arg)
    (stop : (p : Printer) → p.args ≡ targs → c p ≡ fault) where
  -- A conversion that takes its argument and ends is followed by a fault.
  next_faults :
      {sent : List ℕ} (m : Cmd Printer (Unit {0})) (p : Printer)
      → Ends (Sent sent targs) (m p)
      → (do m; c) p ≡ fault
  next_faults m p h = let (_, p', e, (_, a)) = Ends-eq h in rw e (stop p' a)

module _ (format : List ℕ) (rest : List Arg) where
  vprintf_loop-zero :
      (xs : List Piece) (p : Printer)
      → ArePrintable xs
      → p.args ≡ args_of xs ++ int (pos 0) ∷ rest
      → vprintf_loop (format_of xs ++ b'%' ∷ b'd' ∷ format) p ≡ fault
  unfolding vprintf_loop
  vprintf_loop-zero [] p h e = convert-zero format rest p e
  vprintf_loop-zero (plain c ∷ xs) p h e =
      rw (vprintf_loop_plain c (format_of xs ++ b'%' ∷ b'd' ∷ format) p h.0)
        (vprintf_loop-zero xs (record p { sent = p.sent ++ c ∷ [] }) h.1 e)
  vprintf_loop-zero (str s ∷ xs) p h e =
      next_faults (vprintf_loop (format_of xs ++ b'%' ∷ b'd' ∷ format)) _
        (λ p' a. vprintf_loop-zero xs p' h.1 a) (convert b's') p (convert_s s _ p e)
  vprintf_loop-zero (dec n ∷ xs) p h e =
      next_faults (vprintf_loop (format_of xs ++ b'%' ∷ b'd' ∷ format)) _
        (λ p' a. vprintf_loop-zero xs p' h.1 a) (convert b'd') p (convert_d n _ p h.0.0 h.0.1 e)
  vprintf_loop-zero (hex i ∷ xs) p h e =
      next_faults (vprintf_loop (format_of xs ++ b'%' ∷ b'd' ∷ format)) _
        (λ p' a. vprintf_loop-zero xs p' h.1 a) (convert b'x') p (convert_x i _ p e)
  vprintf_loop-zero (long_hex i ∷ xs) p h e =
      next_faults (vprintf_loop (format_of xs ++ b'%' ∷ b'd' ∷ format)) _
        (λ p' a. vprintf_loop-zero xs p' h.1 a) (convert b'l') p (convert_l i _ p e)

-- A format starts with plain characters and with `%s`, `%d`, `%x` and `%l`, whose arguments come
-- first, each number for a `%d` positive and below 214748365. Then `%d` follows with the argument 0,
-- and anything behind it. `vprintf` of this format writes outside `buf`.
pub vprintf-zero :
    (xs : List Piece) (format : List ℕ) (rest : List Arg) (p : Printer)
    → ArePrintable xs
    → p.args ≡ args_of xs ++ int (pos 0) ∷ rest
    → vprintf (format_of xs ++ b'%' ∷ b'd' ∷ format) p ≡ fault
unfolding vprintf
vprintf-zero xs format rest p h e =
    rw (vprintf_loop-zero format rest xs (record p { buf = λ _. 0 }) h e) refl
