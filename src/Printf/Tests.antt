-- ===== src/Printf/Tests.antt =====
-- Formats and what they print.
use hob_os.Base.{ℕ, length, ◌≡◌, refl, List, [], ◌∷◌, arith}
use hob_os.Base.Int.{to_char, pos, negsuc}
use hob_os.Base.Run.{◌>>=◌, Ends, fault}
use hob_os.Printf.{d_to_s, int_chars, Printer, Arg, int, vprintf}
use hob_os.Printf.Format.{Piece, plain, dec, hex, texts_of, vprintf-texts}
use hob_os.Printf.Numbers.{Text}
use hob_os.Printf.Digits.{value, digits}
use hob_os.Printf.RoundTrip.{int_chars-d_to_s}
use hob_os.Printf.Faults.{vprintf-zero}

abbrev printer : List Arg → Printer
printer args = record { buf = λ _. 7; sent = b'>' ∷ []; args = args }

-- "a%d%x"
abbrev pieces : List Piece
pieces = plain b'a' ∷ dec 120 ∷ hex (negsuc 0) ∷ []

vprintf-texts_example :
    Ends
      (λ r p'. (r ≡ 0) × (p'.sent ≡ b'>' ∷ texts_of pieces) × (p'.args ≡ []))
      (vprintf
        (b'a' ∷ b'%' ∷ b'd' ∷ b'%' ∷ b'x' ∷ [])
        (printer (int (pos 120) ∷ int (negsuc 0) ∷ [])))
vprintf-texts_example =
    vprintf-texts pieces (printer (int (pos 120) ∷ int (negsuc 0) ∷ []))
      (omega arith, ((omega arith, omega arith), (tt, tt))) refl

-- "a%d%x%d"
vprintf-zero_example :
    vprintf
      (b'a' ∷ b'%' ∷ b'd' ∷ b'%' ∷ b'x' ∷ b'%' ∷ b'd' ∷ [])
      (printer (int (pos 120) ∷ int (negsuc 0) ∷ int (pos 0) ∷ []))
    ≡ fault
vprintf-zero_example =
    vprintf-zero pieces [] [] (printer (int (pos 120) ∷ int (negsuc 0) ∷ int (pos 0) ∷ []))
      (omega arith, ((omega arith, omega arith), (tt, tt))) refl

int_chars-d_to_s_example :
    Ends
      (λ at p'. (t : List ℕ) × Text p'.buf at t × (value 0 t ≡ 120) × (length t ≡ digits 9 120))
      ((do nr_chars ← int_chars (pos 120); d_to_s (pos 120) (to_char nr_chars)) (printer []))
int_chars-d_to_s_example = int_chars-d_to_s 120 (printer []) (omega arith) (omega arith)
