-- ===== src/Printf/Numbers.antt =====
-- The strings that `d_to_s` and `x_to_s` build in `buf`.
use hob_os.Base.{
  ℕ, zero, suc, ◌+◌, ◌/◌, ◌%◌, ◌<◌, ◌≡◌, ◌≢◌, refl, List, [], ◌∷◌, ◌++◌, update, arith, lt→ltb,
  ne→==, ap, length, length-append,
}
use mathlib.Core.List.{append_assoc, append-nil}
use hob_os.Base.Int.{pos}
use hob_os.Base.Run.{Ends, ends, ok, weaken}
use hob_os.Printf.{Printer, write, hex_digit, d_loop, x_loop, puts_buf, putc}

-- In `b`, the characters `xs` and a NUL stand from the index `i` on.
abbrev pub Text : (ℕ → ℕ) → ℕ → List ℕ → Type 0
Text b i [] = b i ≡ 0
Text b i (x ∷ xs) = (b i ≡ x) × (x ≢ 0) × Text b (suc i) xs

pub Text-update :
    (b : ℕ → ℕ) (j v i : ℕ) (xs : List ℕ) → j < i → Text b i xs → Text (update b j v) i xs
Text-update b j v i [] h t = ground arith
Text-update b j v i (x ∷ xs) h t =
    (ground arith, t.1, Text-update b j v (suc i) xs (omega arith) t.2)

-- The last `k` decimal digits of `n`.
unfoldable pub decimal : ℕ → ℕ → List ℕ
decimal zero n = []
decimal (suc k) n = decimal k (n / 10) ++ (n % 10 + 48) ∷ []

unfoldable pub hexadecimal : ℕ → ℕ → List ℕ
hexadecimal zero n = []
hexadecimal (suc k) n = hexadecimal k (n / 16) ++ hex_digit (n % 16) ∷ []

-- `p'` differs from `p` in `buf` alone.
abbrev pub SameButBuf : Printer → Printer → Type 0
SameButBuf p p' = (p'.sent ≡ p.sent) × (p'.args ≡ p.args)

pub d_loop-decimal :
    (m n : ℕ) (p : Printer) (xs : List ℕ)
    → m < 128
    → Text p.buf (suc m) xs
    → Ends (λ _ p'. Text p'.buf 1 (decimal m n ++ xs) × SameButBuf p p') (d_loop m (pos n) p)
unfolding d_loop decimal write
d_loop-decimal zero n p xs h t = ends (t, (refl, refl))
d_loop-decimal (suc m) n p xs h t =
    rw (lt→ltb (suc m) 128 h, append_assoc)
      (weaken
        (d_loop-decimal m (n / 10) (record p { buf = update p.buf (suc m) (n % 10 + 48) })
          ((n % 10 + 48) ∷ xs) (omega arith)
          (ground arith, omega arith, Text-update p.buf (suc m) _ (suc (suc m)) xs (omega arith) t))
        λ _ p' h'. h')

hex_digit_ne : (n : ℕ) → hex_digit n ≢ 0
hex_digit_ne n = ground arith

pub x_loop-hexadecimal :
    (m n : ℕ) (p : Printer) (xs : List ℕ)
    → m + 1 < 128
    → Text p.buf (m + 2) xs
    → Ends (λ _ p'. Text p'.buf 2 (hexadecimal m n ++ xs) × SameButBuf p p') (x_loop m n p)
unfolding x_loop hexadecimal write
x_loop-hexadecimal zero n p xs h t = ends (t, (refl, refl))
x_loop-hexadecimal (suc m) n p xs h t =
    let c : ℕ = hex_digit (n % 16) in
    let e : suc m + 1 ≡ m + 2 = omega arith in
    let e' : suc m + 2 ≡ suc (m + 2) = omega arith in
    let t' : Text p.buf (suc (m + 2)) xs = rw e' at t in
    rw (lt→ltb (suc m + 1) 128 h, append_assoc, e)
      (weaken
        (x_loop-hexadecimal m (n / 16) (record p { buf = update p.buf (m + 2) c }) (c ∷ xs)
          (omega arith)
          (
            ground arith,
            hex_digit_ne (n % 16),
            Text-update p.buf (m + 2) c (suc (m + 2)) xs (omega arith) t',
          ))
        λ _ p' h'. h')

i_suc : (i : ℕ) → i + 1 ≡ suc i
i_suc i = omega arith

-- `puts` of a string in `buf` sends its characters.
pub puts_buf-Text :
    (k i : ℕ) (p : Printer) (xs : List ℕ)
    → length xs < k
    → i + length xs < 128
    → Text p.buf i xs
    → puts_buf k i p ≡ ok tt (record p { sent = p.sent ++ xs })
unfolding puts_buf putc
puts_buf-Text zero i p xs f h t = absurd (omega arith)
puts_buf-Text (suc k) i p [] f h t = rw (lt→ltb i 128 (omega arith), t, append-nil)
puts_buf-Text (suc k) i p (x ∷ xs) f h t =
    rw
      (
        lt→ltb i 128 (omega arith),
        t.0,
        ne→== x 0 t.1,
        i_suc i,
        puts_buf-Text k (suc i) (record p { sent = p.sent ++ x ∷ [] }) xs (omega arith)
            (omega arith) t.2,
      )
      (ap (λ s. ok tt (record p { sent = s })) (append_assoc p.sent (x ∷ []) xs))

-- What printing the characters `xs` leaves: they are sent, and no argument is taken.
abbrev pub Sends : List ℕ → Printer → Unit {0} → Printer → Type 0
Sends xs p _ p' = (p'.sent ≡ p.sent ++ xs) × (p'.args ≡ p.args)

pub length-decimal : (m n : ℕ) → length (decimal m n) ≡ m
unfolding decimal
length-decimal zero n = refl
length-decimal (suc m) n =
    omega
      (arith, length-append (decimal m (n / 10)) ((n % 10 + 48) ∷ []), length-decimal m (n / 10))

pub length-hexadecimal : (m n : ℕ) → length (hexadecimal m n) ≡ m
unfolding hexadecimal
length-hexadecimal zero n = refl
length-hexadecimal (suc m) n = omega (
  arith,
  length-append (hexadecimal m (n / 16)) (hex_digit (n % 16) ∷ []),
  length-hexadecimal m (n / 16),
)
