-- ===== src/Syscall/Tests.antt =====
-- The calls at a small memory: the buffer at 1000 holds "xyz", the user's text "hi" is at 5000.
use hob_os.Base.{
  ℕ, zero, suc, ◌+◌, List, eq→==, ne→==, ◌≡◌, refl, [], ◌∷◌, ◌++◌, ◌==◌, if◌then◌else◌, arith, inr,
}
use hob_os.Base.Run.{Ends, fault}
use hob_os.Printf.Numbers.{Text}
use hob_os.Printf.Format.{texts_of}
use hob_os.Syscall.{User, SyscallMeta, invalid_address, usr_end, syscall_puts, user_addr_is_valid}
use hob_os.Syscall.Puts.{syscall_puts-invalid, syscall_puts-valid, syscall_puts-overrun}

abbrev small_memory : User
small_memory = record {
  mem = λ a.
      if a == 1000
      then b'x'
      else (if a == 1001
          then b'y'
          else (if a == 1002
              then b'z'
              else (if a == 5000 then b'h' else (if a == 5001 then b'i' else 0))));
  sent = [];
  x = λ _. 0;
}

abbrev call : ℕ → SyscallMeta
call addr = record { fn_args = λ _. addr; syscall_nr = 2 }

syscall_puts-invalid_example :
    Ends
      (λ _ s'.
        (s'.mem ≡ small_memory.mem)
        × (s'.sent
            ≡ [] ++ texts_of (invalid_address 3000 4096 (usr_end 4096)) ++ b'x' ∷ b'y' ∷ b'z' ∷ []))
      (syscall_puts 4096 9 1000 (call 3000) small_memory)
unfolding user_addr_is_valid
syscall_puts-invalid_example =
    syscall_puts-invalid 4096 9 1000 (call 3000) small_memory (b'x' ∷ b'y' ∷ b'z' ∷ []) refl
      (refl, omega arith, (refl, omega arith, (refl, omega arith, refl))) (omega arith)
      (omega arith)

-- "hi" and the "z" behind it
syscall_puts-valid_example :
    Ends
      (λ _ s'. s'.sent ≡ [] ++ (b'h' ∷ b'i' ∷ [] ++ b'z' ∷ []))
      (syscall_puts 4096 9 1000 (call 5000) small_memory)
unfolding user_addr_is_valid
syscall_puts-valid_example =
    syscall_puts-valid 4096 9 1000 (call 5000) small_memory (b'h' ∷ b'i' ∷ []) (b'z' ∷ []) refl
      (refl, omega arith, (refl, omega arith, refl)) (refl, omega arith, refl) (inr (omega arith))
      (omega arith) (omega arith)

-- The text at 5000 has 130 characters.
abbrev long_text : User
long_text = record small_memory { mem = λ a. if a == 5130 then 0 else b'a' }

abbrev many : ℕ → List ℕ
many zero = []
many (suc n) = b'a' ∷ many n

many-Text : (n c : ℕ) → c + n ≡ 5130 → Text long_text.mem c (many n)
many-Text zero c h = rw (eq→== c 5130 (omega arith)) refl
many-Text (suc n) c h =
    (rw (ne→== c 5130 (omega arith)) refl, omega arith, many-Text n (suc c) (omega arith))

syscall_puts-overrun_example : syscall_puts 4096 200 1000 (call 5000) long_text ≡ fault
unfolding user_addr_is_valid
syscall_puts-overrun_example =
    syscall_puts-overrun 4096 200 1000 (call 5000) long_text (many 130) refl
      (many-Text 130 5000 refl) (inr (omega arith)) (omega arith) (omega arith)
