-- ===== src/Printf/Format.antt =====
-- What `vprintf` prints: formats as sequences of pieces, each with the characters that it stands
-- for.
use hob_os.Base.{
  ℕ, ◌+◌, ◌-◌, ◌%◌, ◌^◌, ◌<◌, ◌≤◌, ◌≡◌, ◌≢◌, refl, sym, List, [], ◌∷◌, ◌++◌, arith, ap, length,
  ne→==, lt→ltb, update,
}
use mathlib.Core.List.{append_assoc, append-nil}
use hob_os.Base.Int.{ℤ, pos, to_u64}
use hob_os.Base.Run.{ok, Run, ◌>>=◌, Ends, ends, after}
use hob_os.Printf.{
  Printer, Arg, string, int, write, d_to_s, x_to_s, puts_buf, puts, putc, take_int, take_string,
  convert, vprintf_loop, vprintf,
}
use hob_os.Printf.Numbers.{
  Text, Text-update, decimal, hexadecimal, d_loop-decimal, x_loop-hexadecimal, puts_buf-Text,
  length-decimal, length-hexadecimal,
}
use hob_os.Printf.Digits.{digits, int_chars-digits, digits_pos, digits-le}

-- The printer with the arguments `args` left has sent `sent`.
abbrev pub Sent : List ℕ → List Arg → Unit {0} → Printer → Type 0
Sent sent args _ p = (p.sent ≡ sent) × (p.args ≡ args)

write-ok :
    (i v : ℕ) (p : Printer) → i < 128 → write i v p ≡ ok tt (record p { buf = update p.buf i v })
unfolding write
write-ok i v p h = rw (lt→ltb i 128 h)

-- A string of fewer than 128 characters is sent from `buf`.
send-Text :
    (i : ℕ) (xs : List ℕ) (p : Printer) (sent : List ℕ) (args : List Arg)
    → i + length xs < 128
    → Text p.buf i xs
    → p.sent ≡ sent
    → p.args ≡ args
    → Ends (Sent (sent ++ xs) args) (puts_buf 128 i p)
send-Text i xs p sent args h t e f =
    rw (puts_buf-Text 128 i p xs (omega arith) h t) (ends (ap (λ s. s ++ xs) e, f))

-- `d_to_s` leaves as many decimal digits as it is told, and returns where they start.
pub d_to_s-decimal :
    (n sz : ℕ) (p : Printer)
    → sz + 2 < 128
    → Ends
        (λ at p'.
          (at ≡ 1) × Text p'.buf 1 (decimal (sz + 1) n) × (p'.sent ≡ p.sent) × (p'.args ≡ p.args))
        (d_to_s (pos n) sz p)
unfolding d_to_s
d_to_s-decimal n sz p h = rw (write-ok (sz + 2) 0 p h) (
    after
      (d_loop-decimal (sz + 1) n (record p { buf = update p.buf (sz + 2) 0 }) [] (omega arith)
        (ground arith))
      λ _ p' (t, same). ends (refl, rw append-nil at t, same.0, same.1))

-- `x_to_s` leaves `0x` and hexadecimal digits.
pub x_to_s-hexadecimal :
    (i : ℤ) (n : ℕ) (p : Printer)
    → n + 2 < 128
    → Ends
        (λ at p'.
          (at ≡ 0)
          × Text p'.buf 0 (b'0' ∷ b'x' ∷ hexadecimal n (to_u64 i))
          × (p'.sent ≡ p.sent)
          × (p'.args ≡ p.args))
        (x_to_s i (n + 2) p)
unfolding x_to_s
x_to_s-hexadecimal i n p h =
    let e : n + 2 - 2 ≡ n = omega arith in
    rw (write-ok (n + 2) 0 p h, e)
      (after
        (x_loop-hexadecimal n (to_u64 i) (record p { buf = update p.buf (n + 2) 0 }) []
          (omega arith) (ground arith))
        λ _ p' (t, same).
          rw (write-ok 1 b'x' p' (omega arith), write-ok 0 b'0' _ (omega arith))
            (ends (
              refl,
              (
                ground arith,
                omega arith,
                (
                  ground arith,
                  omega arith,
                  Text-update _ 0 b'0' 2 _ (omega arith)
                      (Text-update p'.buf 1 b'x' 2 _ (omega arith) (rw append-nil at t)),
                ),
              ),
              same.0,
              same.1,
            )))

-- `%d` with a positive number prints its decimal digits.
pub convert_d :
    (n : ℕ) (rest : List Arg) (p : Printer)
    → n ≢ 0
    → n < 214748365
    → p.args ≡ int (pos n) ∷ rest
    → Ends (Sent (p.sent ++ decimal (digits 9 n) n) rest) (convert b'd' p)
unfolding convert take_int
convert_d n rest p nz h e =
    let d = digits 9 n in
    let d9 : d ≤ 9 = digits-le 9 n in
    let pos_d : 0 < d = digits_pos 9 n nz (omega arith) in
    let same : (d - 1) % 2 ^ 8 + 1 ≡ d = omega arith in
    rw (e, int_chars-digits n (record p { args = rest }) nz h)
      (after (d_to_s-decimal n ((d - 1) % 2 ^ 8) (record p { args = rest }) (omega arith))
        λ at p' (a, t, e, f). rw a (
          send-Text 1 (decimal d n) p' p.sent rest (omega (arith, length-decimal d n))
            (rw same at t) e f))

pub convert_s :
    (s : List ℕ) (rest : List Arg) (p : Printer)
    → p.args ≡ string s ∷ rest
    → Ends (Sent (p.sent ++ s) rest) (convert b's' p)
unfolding convert take_string puts
convert_s s rest p e = rw e (ends (refl, refl))

module _ (i : ℤ) (rest : List Arg) (p : Printer) (e : p.args ≡ int i ∷ rest) where
  send_hex :
      (n : ℕ)
      → n + 2 < 128
      → Ends
          (Sent (p.sent ++ b'0' ∷ b'x' ∷ hexadecimal n (to_u64 i)) rest)
          ((do at ← x_to_s i (n + 2); puts_buf 128 at) (record p { args = rest }))
  send_hex n h = after (x_to_s-hexadecimal i n (record p { args = rest }) h) λ at p' (a, t, e', f).
      rw a (
        send-Text 0 (b'0' ∷ b'x' ∷ hexadecimal n (to_u64 i)) p' p.sent rest
          (omega (arith, length-hexadecimal n (to_u64 i))) t e' f)

  pub convert_x :
      Ends (Sent (p.sent ++ b'0' ∷ b'x' ∷ hexadecimal 8 (to_u64 i)) rest) (convert b'x' p)
  unfolding convert take_int
  convert_x = rw e (send_hex 8 (omega arith))

  pub convert_l :
      Ends (Sent (p.sent ++ b'0' ∷ b'x' ∷ hexadecimal 16 (to_u64 i)) rest) (convert b'l' p)
  unfolding convert take_int
  convert_l = rw e (send_hex 16 (omega arith))

-- A part of a format, with its argument.
pub data Piece : Type 0 where
  plain : ℕ → Piece
  str : List ℕ → Piece
  dec : ℕ → Piece
  hex : ℤ → Piece
  long_hex : ℤ → Piece

-- A plain character is no `%`. A number for `%d` is positive, and fits an `int` ten times.
abbrev pub IsPrintable : Piece → Type 0
IsPrintable (plain c) = c ≢ b'%'
IsPrintable (dec n) = (n ≢ 0) × (n < 214748365)
IsPrintable _ = Unit

abbrev pub ArePrintable : List Piece → Type 0
ArePrintable [] = Unit
ArePrintable (x ∷ xs) = IsPrintable x × ArePrintable xs

abbrev pub format_of : List Piece → List ℕ
format_of [] = []
format_of (plain c ∷ xs) = c ∷ format_of xs
format_of (str s ∷ xs) = b'%' ∷ b's' ∷ format_of xs
format_of (dec n ∷ xs) = b'%' ∷ b'd' ∷ format_of xs
format_of (hex i ∷ xs) = b'%' ∷ b'x' ∷ format_of xs
format_of (long_hex i ∷ xs) = b'%' ∷ b'l' ∷ format_of xs

abbrev pub args_of : List Piece → List Arg
args_of [] = []
args_of (plain c ∷ xs) = args_of xs
args_of (str s ∷ xs) = string s ∷ args_of xs
args_of (dec n ∷ xs) = int (pos n) ∷ args_of xs
args_of (hex i ∷ xs) = int i ∷ args_of xs
args_of (long_hex i ∷ xs) = int i ∷ args_of xs

-- What a piece prints.
abbrev pub text_of : Piece → List ℕ
text_of (plain c) = c ∷ []
text_of (str s) = s
text_of (dec n) = decimal (digits 9 n) n
text_of (hex i) = b'0' ∷ b'x' ∷ hexadecimal 8 (to_u64 i)
text_of (long_hex i) = b'0' ∷ b'x' ∷ hexadecimal 16 (to_u64 i)

abbrev pub texts_of : List Piece → List ℕ
texts_of [] = []
texts_of (x ∷ xs) = text_of x ++ texts_of xs

pub vprintf_loop_plain :
    (c : ℕ) (format : List ℕ) (p : Printer)
    → c ≢ b'%'
    → vprintf_loop (c ∷ format) p ≡ vprintf_loop format (record p { sent = p.sent ++ c ∷ [] })
unfolding vprintf_loop putc
vprintf_loop_plain c [] p h = rw (ne→== c b'%' h)
vprintf_loop_plain c (d ∷ format) p h = rw (ne→== c b'%' h)

-- After `cs`, what is sent next stands behind `cs`.
behind :
    {r : Run Printer (Unit {0})} (cs ds sent : List ℕ) (p' : Printer)
    → p'.sent ≡ sent ++ cs
    → Ends (Sent (p'.sent ++ ds) []) r
    → Ends (Sent (sent ++ (cs ++ ds)) []) r
behind cs ds sent p' e t = rw (← append_assoc sent cs ds, ← e) t

vprintf_loop-texts :
    (xs : List Piece) (p : Printer)
    → ArePrintable xs
    → p.args ≡ args_of xs
    → Ends (Sent (p.sent ++ texts_of xs) []) (vprintf_loop (format_of xs) p)
unfolding vprintf_loop
vprintf_loop-texts [] p h e = ends (sym (append-nil p.sent), e)
vprintf_loop-texts (plain c ∷ xs) p h e =
    let p' : Printer = record p { sent = p.sent ++ c ∷ [] } in
    rw (vprintf_loop_plain c (format_of xs) p h.0)
      (behind (c ∷ []) (texts_of xs) p.sent p' refl (vprintf_loop-texts xs p' h.1 e))
vprintf_loop-texts (str s ∷ xs) p h e =
    after (convert_s s (args_of xs) p e)
      λ _ p' (t, a). behind s (texts_of xs) p.sent p' t (vprintf_loop-texts xs p' h.1 a)
vprintf_loop-texts (dec n ∷ xs) p h e =
    after (convert_d n (args_of xs) p h.0.0 h.0.1 e) λ _ p' (t, a).
      behind (text_of (dec n)) (texts_of xs) p.sent p' t (vprintf_loop-texts xs p' h.1 a)
vprintf_loop-texts (hex i ∷ xs) p h e = after (convert_x i (args_of xs) p e) λ _ p' (t, a).
    behind (text_of (hex i)) (texts_of xs) p.sent p' t (vprintf_loop-texts xs p' h.1 a)
vprintf_loop-texts (long_hex i ∷ xs) p h e = after (convert_l i (args_of xs) p e) λ _ p' (t, a).
    behind (text_of (long_hex i)) (texts_of xs) p.sent p' t (vprintf_loop-texts xs p' h.1 a)

-- `vprintf` prints a format that is made of plain characters and of `%s`, `%d`, `%x` and `%l` with
-- their arguments as the texts of these pieces in order, takes all arguments, and returns 0. A
-- number for `%d` is positive and below 214748365.
pub vprintf-texts :
    (xs : List Piece) (p : Printer)
    → ArePrintable xs
    → p.args ≡ args_of xs
    → Ends
        (λ r p'. (r ≡ 0) × (p'.sent ≡ p.sent ++ texts_of xs) × (p'.args ≡ []))
        (vprintf (format_of xs) p)
unfolding vprintf
vprintf-texts xs p h e =
    after (vprintf_loop-texts xs (record p { buf = λ _. 0 }) h e) λ _ p' (t, a). ends (refl, t, a)
