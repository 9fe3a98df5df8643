-- ===== src/Printf.antt =====
-- printf.c: `d_to_s`, `x_to_s`, `int_chars` and `vprintf`. The state is the array `buf` of
-- `vprintf`, the characters that the console has been given, and the arguments not yet taken.
pub mod Digits
pub mod Faults
pub mod Format
pub mod Numbers
pub mod RoundTrip
mod Tests
use hob_os.Base.{
  ℕ, zero, suc, ◌+◌, ◌-◌, ◌/◌, ◌%◌, List, [], ◌∷◌, ◌++◌, ◌==◌, ltb, if◌then◌else◌, update,
}
use hob_os.Base.Int.{ℤ, pos, negsuc, sub_ℕ, is_zero, wrap32, times10, quot10, to_char, to_u64}
use hob_os.Base.Run.{Cmd, ok, fault, out_of_fuel, pure, modify, ◌>>=◌, ◌>>◌}

-- `D_BUF_SZ`
abbrev pub d_buf_sz : ℕ
d_buf_sz = 128

-- What `va_arg` can take: a string, by its characters, or an `int`.
pub data Arg : Type 0 where
  string : List ℕ → Arg
  int : ℤ → Arg

pub record Printer : Type 0 where
  pub buf : ℕ → ℕ
  pub sent : List ℕ
  pub args : List Arg

-- `c[index] = v`, where `c` is `buf`
unfoldable pub write : ℕ → ℕ → Cmd Printer (Unit {0})
write index v p =
    if ltb index d_buf_sz then ok tt (record p { buf = update p.buf index v }) else fault

unfoldable pub putc : ℕ → Cmd Printer (Unit {0})
putc c = modify (λ p. record p { sent = p.sent ++ c ∷ [] })

-- `puts` of a string outside `buf`
unfoldable pub puts : List ℕ → Cmd Printer (Unit {0})
puts s = modify (λ p. record p { sent = p.sent ++ s })

-- `puts` of the string in `buf` from an index on, up to its NUL
unfoldable pub puts_buf : ℕ → ℕ → Cmd Printer (Unit {0})
puts_buf zero index p = out_of_fuel
puts_buf (suc k) index p =
    if ltb index d_buf_sz
    then (if p.buf index == 0 then pure tt else (do putc (p.buf index); puts_buf k (index + 1))) p
    else fault

-- `(char)(d % 10 + '0')`
abbrev pub digit : ℤ → ℕ
digit (pos n) = n % 10 + 48
digit (negsuc n) = 48 - suc n % 10

unfoldable pub d_loop : ℕ → ℤ → Cmd Printer (Unit {0})
d_loop zero d = pure tt
d_loop (suc index) d = do write (suc index) (digit d); d_loop index (quot10 d)

-- The result is the index in `buf` where the string starts.
unfoldable pub d_to_s : ℤ → ℕ → Cmd Printer ℕ
d_to_s i sz = do write (sz + 2) 0; d_loop (sz + 1) i; pure 1

-- `(char)(res + '0')` or `(char)((res - 0xa) + 'A')`
abbrev pub hex_digit : ℕ → ℕ
hex_digit res = if ltb res 0xa then res + 48 else (res - 0xa) + 65

-- The rounds left are `index - 1`.
unfoldable pub x_loop : ℕ → ℕ → Cmd Printer (Unit {0})
x_loop zero d = pure tt
x_loop (suc n) d = do write (suc n + 1) (hex_digit (d % 16)); x_loop n (d / 16)

-- `sz` is at least 2 where it is called.
unfoldable pub x_to_s : ℤ → ℕ → Cmd Printer ℕ
x_to_s i sz = do write sz 0; x_loop (sz - 2) (to_u64 i); write 1 b'x'; write 0 b'0'; pure 0

-- The first argument is fuel.
unfoldable pub chars_loop : ℕ → ℤ → ℕ → Cmd Printer ℕ
chars_loop zero i size = λ _. out_of_fuel
chars_loop (suc k) i size = if is_zero i then pure size else chars_loop k (quot10 i) (size + 1)

unfoldable pub int_chars : ℤ → Cmd Printer ℤ
int_chars d = do size ← chars_loop 11 (wrap32 (times10 d)) 0; pure (sub_ℕ size 2)

unfoldable pub take_int : Cmd Printer ℤ
take_int p = elim p.args [
  | [] ↦ fault
  | a ∷ rest ↦ elim a [ string s ↦ fault | int i ↦ ok i (record p { args = rest }) ]
]

unfoldable pub take_string : Cmd Printer (List ℕ)
take_string p = elim p.args [
  | [] ↦ fault
  | a ∷ rest ↦ elim a [ string s ↦ ok s (record p { args = rest }) | int i ↦ fault ]
]

-- "Format option not supported\n"
abbrev pub unsupported : List ℕ
unsupported =
    b'F' ∷ b'o' ∷ b'r' ∷ b'm' ∷ b'a' ∷ b't' ∷ b' ' ∷ b'o' ∷ b'p' ∷ b't' ∷ b'i' ∷ b'o' ∷ b'n' ∷ b' '
    ∷ b'n' ∷ b'o' ∷ b't' ∷ b' ' ∷ b's' ∷ b'u' ∷ b'p' ∷ b'p' ∷ b'o' ∷ b'r' ∷ b't' ∷ b'e' ∷ b'd' ∷ 10
    ∷ []

-- The cases of the `switch`, by the character behind `%`.
unfoldable pub convert : ℕ → Cmd Printer (Unit {0})
convert c =
    if c == b's'
    then (do s ← take_string; puts s)
    else (if c == b'c'
        then (do i ← take_int; putc (to_char i))
        else (if c == b'd'
            then (do
              i ← take_int
              nr_chars ← int_chars i
              at ← d_to_s i (to_char nr_chars)
              puts_buf d_buf_sz at)
            else (if c == b'x'
                then (do i ← take_int; at ← x_to_s i 10; puts_buf d_buf_sz at)
                else (if c == b'l'
                    then (do i ← take_int; at ← x_to_s i 18; puts_buf d_buf_sz at)
                    else puts unsupported))))

-- The format is the characters before its NUL. Behind a `%` at the end the code steps over the
-- NUL, and reads on outside the format.
unfoldable pub vprintf_loop : List ℕ → Cmd Printer (Unit {0})
vprintf_loop [] = pure tt
vprintf_loop (c ∷ []) = if c == b'%' then (do puts unsupported; λ _. fault) else putc c
vprintf_loop (c ∷ d ∷ format) =
    let plain : Cmd Printer (Unit {0}) = vprintf_loop (d ∷ format) in
    let rest : Cmd Printer (Unit {0}) = vprintf_loop format in
    if c == b'%' then (do convert d; rest) else (do putc c; plain)

-- `memset(buf, 0, D_BUF_SZ)`, and the loop.
unfoldable pub vprintf : List ℕ → Cmd Printer ℕ
vprintf format = do modify (λ p. record p { buf = λ _. 0 }); vprintf_loop format; pure 0
