-- ===== src/Syscall.antt =====
-- syscall.c, syscall_def.c, the table in syscall_vt.S, usr_ops.c, `va_to_pa` of pt.c and `strcpy`
-- of mm.c. The state is the memory by bytes, the characters sent to the console, and the registers
-- of the user's program. `usr_entry` is the address of the symbol `__usr_entry`, which the linker
-- gives. `buf` is where the stack has the array of `syscall_puts`, and `fuel` bounds the walks to a
-- NUL. `limit` is the address behind the object that is read or written: an access from there on is
-- one outside the array, and faults. A pointer of the user's has no object, and all addresses do.
-- The locks and interrupt masks of `kprintf` are not modelled.
pub mod Puts
mod Tests
use hob_os.Base.{
  ℕ, zero, suc, ◌+◌, ◌-◌, ◌*◌, ◌%◌, ◌^◌, List, [], ◌∷◌, ◌++◌, Bool, true, false, ltb, ◌==◌,
  if◌then◌else◌, update,
}
use hob_os.Base.Int.{ℤ, pos, negsuc, is_zero, wrap32}
use hob_os.Base.Run.{Run, Cmd, ok, fault, out_of_fuel, pure, gets, modify, ◌>>=◌, ◌>>◌}
use hob_os.Printf.{Printer, Arg, int, vprintf}
use hob_os.Printf.Format.{Piece, plain, hex, format_of, args_of}

pub record SyscallMeta : Type 0 where
  pub fn_args : ℕ → ℕ
  pub syscall_nr : ℕ

pub record User : Type 0 where
  pub mem : ℕ → ℕ
  pub sent : List ℕ
  pub x : ℕ → ℕ

abbrev pub supp_syscall_nr : ℕ
supp_syscall_nr = 4

abbrev pub usr_sz : ℕ
usr_sz = 0x1000 * 1000

-- `addr & ~KERNEL_START`, where `KERNEL_START` has the bits from 39 on
abbrev pub va_to_pa : ℕ → ℕ
va_to_pa addr = addr % 2 ^ 39

abbrev printed : {A : Type 0} → User → Run Printer A → Run User A
printed s (ok a p) = ok a (record s { sent = p.sent })
printed s fault = fault
printed s out_of_fuel = out_of_fuel

unfoldable pub kprintf : List ℕ → List Arg → Cmd User ℕ
kprintf format args s =
    printed s (vprintf format (record { buf = λ _. 0; sent = s.sent; args = args }))

unfoldable pub putc : ℕ → Cmd User (Unit {0})
putc c = modify (λ s. record s { sent = s.sent ++ c ∷ [] })

-- `puts` of the string in memory at `p`, up to its NUL
unfoldable pub puts : ℕ → ℕ → ℕ → Cmd User (Unit {0})
puts zero limit p s = out_of_fuel
puts (suc k) limit p s =
    (if ltb p limit
        then (if s.mem p == 0 then pure tt else (do putc (s.mem p); puts k limit (p + 1)))
        else λ _. fault)
      s

-- `limit` is that of the target.
unfoldable pub strcpy : ℕ → ℕ → ℕ → ℕ → Cmd User (Unit {0})
strcpy zero limit d c s = out_of_fuel
strcpy (suc k) limit d c s =
    (if s.mem c == 0
        then pure tt
        else (if ltb d limit
            then (do
              modify (λ s. record s { mem = update s.mem d (s.mem c) })
              strcpy k limit (d + 1) (c + 1))
            else λ _. fault))
      s

-- "Invalid address!: %x [%x:%x]\n" with its arguments
abbrev pub invalid_address : ℕ → ℕ → ℕ → List Piece
invalid_address a b c =
    plain b'I'
    ∷ plain b'n'
    ∷ plain b'v'
    ∷ plain b'a'
    ∷ plain b'l'
    ∷ plain b'i'
    ∷ plain b'd'
    ∷ plain b' '
    ∷ plain b'a'
    ∷ plain b'd'
    ∷ plain b'd'
    ∷ plain b'r'
    ∷ plain b'e'
    ∷ plain b's'
    ∷ plain b's'
    ∷ plain b'!'
    ∷ plain b':'
    ∷ plain b' '
    ∷ hex (wrap32 (pos a))
    ∷ plain b' '
    ∷ plain b'['
    ∷ hex (wrap32 (pos b))
    ∷ plain b':'
    ∷ hex (wrap32 (pos c))
    ∷ plain b']'
    ∷ plain 10
    ∷ []

-- "Syscall not implemented!\n"
abbrev not_implemented : List ℕ
not_implemented =
    b'S' ∷ b'y' ∷ b's' ∷ b'c' ∷ b'a' ∷ b'l' ∷ b'l' ∷ b' ' ∷ b'n' ∷ b'o' ∷ b't' ∷ b' ' ∷ b'i' ∷ b'm'
    ∷ b'p' ∷ b'l' ∷ b'e' ∷ b'm' ∷ b'e' ∷ b'n' ∷ b't' ∷ b'e' ∷ b'd' ∷ b'!' ∷ 10 ∷ []

-- "Panic!:"
abbrev panic : List ℕ
panic = b'P' ∷ b'a' ∷ b'n' ∷ b'i' ∷ b'c' ∷ b'!' ∷ b':' ∷ []

unfoldable pub get_syscall_meta : Cmd User SyscallMeta
get_syscall_meta = gets (λ s. record { fn_args = s.x; syscall_nr = s.x 8 })

unfoldable pub syscall_ni : SyscallMeta → Cmd User (Unit {0})
syscall_ni sys_m = do kprintf not_implemented []; pure tt

unfoldable pub syscall_putc : SyscallMeta → Cmd User (Unit {0})
syscall_putc sys_m = putc (sys_m.fn_args 1 % 2 ^ 8)

-- The loop behind the two `puts` does not end.
unfoldable pub syscall_panic : ℕ → SyscallMeta → Cmd User (Unit {0})
syscall_panic fuel sys_m = do
  modify (λ s. record s { sent = s.sent ++ panic })
  puts fuel (2 ^ 64) (sys_m.fn_args 1)
  λ _. out_of_fuel

-- An integer as a condition
abbrev is_nonzero : ℤ → Bool
is_nonzero i = if is_zero i then false else true

module _ (usr_entry : ℕ) where
  abbrev pub usr_end : ℕ
  usr_end = (usr_entry + usr_sz) % 2 ^ 64

  unfoldable pub user_addr_is_valid : ℕ → ℤ
  user_addr_is_valid addr =
      if ltb addr (va_to_pa usr_entry)
      then negsuc 0
      else (if ltb (va_to_pa usr_end) addr then negsuc 0 else pos 0)

  -- The result of `copy_from_user` for an address that is not the user's: -1, as an unsigned int
  abbrev pub minus_one : ℕ
  minus_one = 2 ^ 32 - 1

  -- `limit` is that of the object at `k_buf`.
  unfoldable pub copy_from_user : ℕ → ℕ → ℕ → ℕ → ℕ → Cmd User ℕ
  copy_from_user fuel limit u_buf k_buf len =
      let effective_len : ℕ = (usr_end + 2 ^ 64 - u_buf) % 2 ^ 64 % 2 ^ 32 in
      if is_nonzero (user_addr_is_valid u_buf)
      then (do
        kprintf (format_of (invalid_address u_buf usr_entry usr_end))
            (args_of (invalid_address u_buf usr_entry usr_end))
        pure minus_one)
      else (do
        strcpy fuel limit k_buf u_buf
        pure (if ltb len effective_len then len else effective_len))

  module _ (fuel buf : ℕ) where
    -- `char buf[128]`
    abbrev buf_end : ℕ
    buf_end = buf + 128

    -- The test `copy_from_user(...) < 0` compares an unsigned int with 0.
    unfoldable pub syscall_puts : SyscallMeta → Cmd User (Unit {0})
    syscall_puts sys_m = do
      r ← copy_from_user fuel buf_end (sys_m.fn_args 1) buf 10
      if ltb r 0 then pure tt else puts fuel buf_end buf

    -- The functions of `syscall_table`
    unfoldable pub syscall_table : ℕ → SyscallMeta → Cmd User (Unit {0})
    syscall_table nr =
        if nr == 0
        then syscall_ni
        else (if nr == 1
            then syscall_putc
            else (if nr == 2 then syscall_puts else syscall_panic fuel))

    unfoldable pub syscall_el0_common : Cmd User (Unit {0})
    syscall_el0_common = do
      sys_m ← get_syscall_meta
      let sys_nr = if ltb sys_m.syscall_nr supp_syscall_nr then sys_m.syscall_nr else 0
      syscall_table sys_nr sys_m
