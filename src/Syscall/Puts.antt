-- ===== src/Syscall/Puts.antt =====
-- What the call `syscall_puts` prints.
use hob_os.Base.{
  ℕ, zero, suc, ◌+◌, ◌-◌, ap, ◌^◌, ◌<◌, ◌≤◌, ◌≡◌, ◌⊎◌, inl, inr, refl, List, [], ◌∷◌, ◌++◌, false,
  ltb, update, length, length-append, arith, ne→==, lt→ltb, ltb-le,
}
use mathlib.Core.List.{append_assoc, append-nil}
use hob_os.Base.Int.{pos, negsuc}
use native.Mathlib.Decide.{dec_lt}
use hob_os.Base.Run.{ok, fault, Ends, ends, after, weaken, Ends-eq}
use hob_os.Printf.Numbers.{Text, Text-update}
use hob_os.Printf.Format.{Piece, texts_of, format_of, args_of, ArePrintable, vprintf-texts}
use hob_os.Syscall.{
  User, SyscallMeta, invalid_address, usr_end, kprintf, putc, puts, strcpy, user_addr_is_valid,
  copy_from_user, syscall_puts,
}

suc_add : (p : ℕ) → p + 1 ≡ suc p
suc_add p = omega arith

puts-Text :
    (k limit p : ℕ) (s : User) (xs : List ℕ)
    → length xs < k
    → p + length xs < limit
    → Text s.mem p xs
    → puts k limit p s ≡ ok tt (record s { sent = s.sent ++ xs })
unfolding puts putc
puts-Text zero limit p s xs f l t = absurd (omega arith)
puts-Text (suc k) limit p s [] f l t = rw (lt→ltb p limit (omega arith), t, append-nil)
puts-Text (suc k) limit p s (x ∷ xs) f l t =
    rw
      (
        lt→ltb p limit (omega arith),
        t.0,
        ne→== x 0 t.1,
        suc_add p,
        puts-Text k limit (suc p) (record s { sent = s.sent ++ x ∷ [] }) xs (omega arith)
            (omega arith) t.2,
      )
      (ap (λ y. ok tt (record s { sent = y })) (append_assoc s.sent (x ∷ []) xs))

kprintf-texts :
    (ps : List Piece) (s : User)
    → ArePrintable ps
    → Ends
        (λ _ s'. (s'.mem ≡ s.mem) × (s'.sent ≡ s.sent ++ texts_of ps))
        (kprintf (format_of ps) (args_of ps) s)
unfolding kprintf
kprintf-texts ps s h =
    let (r, p, e, ok_r) =
      Ends-eq
        (vprintf-texts ps (record { buf = λ _. 0; sent = s.sent; args = args_of ps }) h refl) in
    rw e (ends (refl, ok_r.1))

invalid_address-ArePrintable : (a b c : ℕ) → ArePrintable (invalid_address a b c)
invalid_address-ArePrintable a b c = ground arith

copy_from_user-invalid :
    (usr_entry fuel limit u_buf k_buf len : ℕ) (s : User)
    → user_addr_is_valid usr_entry u_buf ≡ negsuc 0
    → Ends
        (λ r s'.
          (r ≡ 2 ^ 32 - 1)
          × (s'.mem ≡ s.mem)
          × (s'.sent ≡ s.sent ++ texts_of (invalid_address u_buf usr_entry (usr_end usr_entry))))
        (copy_from_user usr_entry fuel limit u_buf k_buf len s)
unfolding copy_from_user
copy_from_user-invalid usr_entry fuel limit a k_buf len s invalid =
    let ps = invalid_address a usr_entry (usr_end usr_entry) in
    rw invalid (
      after (kprintf-texts ps s (invalid_address-ArePrintable a usr_entry (usr_end usr_entry)))
        λ r u h. ends (refl, h.0, h.1))

-- For an address that is not the user's, `syscall_puts` prints the message that reports it, and
-- then all the same what the stack holds in the buffer, up to a NUL: here the text `xs`, of fewer
-- than 128 characters. The memory does not change.
pub syscall_puts-invalid :
    (usr_entry fuel buf : ℕ) (sys_m : SyscallMeta) (s : User) (xs : List ℕ)
    → user_addr_is_valid usr_entry (sys_m.fn_args 1) ≡ negsuc 0
    → Text s.mem buf xs
    → length xs < 128
    → length xs < fuel
    → Ends
        (λ _ s'.
          (s'.mem ≡ s.mem)
          × (s'.sent
              ≡ s.sent
                ++ texts_of (invalid_address (sys_m.fn_args 1) usr_entry (usr_end usr_entry))
                ++ xs))
        (syscall_puts usr_entry fuel buf sys_m s)
unfolding syscall_puts
syscall_puts-invalid usr_entry fuel buf sys_m s xs invalid t room f =
    after (copy_from_user-invalid usr_entry fuel (buf + 128) (sys_m.fn_args 1) buf 10 s invalid)
      λ r u (e, m, sent).
        let no_less : ltb r 0 ≡ false = ground arith in
        let t' : Text u.mem buf xs = rw m t in
        rw (no_less, puts-Text fuel (buf + 128) buf u xs f (omega arith) t')
          (ends (m, rw sent refl))

Text-update_behind :
    (b : ℕ → ℕ) (j v i : ℕ) (xs : List ℕ)
    → i + length xs < j
    → Text b i xs
    → Text (update b j v) i xs
Text-update_behind b j v i [] h t = ground arith
Text-update_behind b j v i (x ∷ xs) h t =
    (ground arith, t.1, Text-update_behind b j v (suc i) xs (omega arith) t.2)

-- Room for a copy of `n` characters and the NUL from `c` to `d` that does not overlap them
abbrev pub Apart : ℕ → ℕ → ℕ → Type 0
Apart n c d = (c + n < d) ⊎ (d + n ≤ c)

Text-update-Apart :
    (b : ℕ → ℕ) (v c d : ℕ) (xs : List ℕ)
    → Apart (suc (length xs)) c d
    → Text b (suc c) xs
    → Text (update b d v) (suc c) xs
Text-update-Apart b v c d xs (inl h) t = Text-update_behind b d v (suc c) xs (omega arith) t
Text-update-Apart b v c d xs (inr h) t = Text-update b d v (suc c) xs (omega arith) t

Apart-suc : (n c d : ℕ) → Apart (suc n) c d → Apart n (suc c) (suc d)
Apart-suc n c d (inl l) = inl (omega arith)
Apart-suc n c d (inr l) = inr (omega arith)

-- `strcpy` copies the characters without the NUL: the text at `d` goes on with what stood there.
strcpy-Text :
    (k limit d c : ℕ) (s : User) (xs ys : List ℕ)
    → length xs < k
    → d + length xs ≤ limit
    → Apart (length xs) c d
    → Text s.mem c xs
    → Text s.mem (d + length xs) ys
    → Ends
        (λ _ s'.
          ((a : ℕ) → a < d → s'.mem a ≡ s.mem a) × Text s'.mem d (xs ++ ys) × (s'.sent ≡ s.sent))
        (strcpy k limit d c s)
unfolding strcpy
strcpy-Text zero limit d c s xs ys f l h t r = absurd (omega arith)
strcpy-Text (suc k) limit d c s [] ys f l h t r =
    let same : d + 0 ≡ d = omega arith in rw t (ends (λ a l. refl, rw same at r, refl))
strcpy-Text (suc k) limit d c s (x ∷ xs) ys f l h t r =
    let e : d + suc (length xs) ≡ suc d + length xs = omega arith in
    let u : User = record s { mem = update s.mem d (s.mem c) } in
    rw (t.0, ne→== x 0 t.1, lt→ltb d limit (omega arith), suc_add d, suc_add c)
      (weaken
        (strcpy-Text k limit (suc d) (suc c) u xs ys (omega arith) (omega arith)
          (Apart-suc (length xs) c d h) (Text-update-Apart s.mem (s.mem c) c d xs h t.2)
          (Text-update s.mem d (s.mem c) (suc d + length xs) ys (omega arith) (rw e at r)))
        λ _ s' (low, text, sent).
          (λ a l. ground (arith, low a), (ground (arith, low d, t.0), t.1, text), sent))

-- A text that is longer than the target is copied up to the end of the target, and on.
strcpy-overrun :
    (k limit d c : ℕ) (s : User) (xs : List ℕ)
    → limit < d + length xs
    → d ≤ limit
    → limit < d + k
    → Apart (length xs) c d
    → Text s.mem c xs
    → strcpy k limit d c s ≡ fault
unfolding strcpy
strcpy-overrun zero limit d c s xs f o l h t = absurd (omega arith)
strcpy-overrun (suc k) limit d c s [] f o l h t = absurd (omega arith)
strcpy-overrun (suc k) limit d c s (x ∷ xs) f o l h t = elim (dec_lt d limit) [
  | yes inside ↦
      rw (t.0, ne→== x 0 t.1, lt→ltb d limit inside, suc_add d, suc_add c)
        (strcpy-overrun k limit (suc d) (suc c) (record s { mem = update s.mem d (s.mem c) }) xs
          (omega arith) (omega arith) (omega arith) (Apart-suc (length xs) c d h)
          (Text-update-Apart s.mem (s.mem c) c d xs h t.2))
  | no outside ↦ rw (t.0, ne→== x 0 t.1, ltb-le d limit (omega arith)) refl
]

copy_from_user-valid :
    (usr_entry fuel limit u_buf k_buf len : ℕ) (s : User) (xs ys : List ℕ)
    → user_addr_is_valid usr_entry u_buf ≡ pos 0
    → Text s.mem u_buf xs
    → Text s.mem (k_buf + length xs) ys
    → Apart (length xs) u_buf k_buf
    → k_buf + length xs ≤ limit
    → length xs < fuel
    → Ends
        (λ _ s'. Text s'.mem k_buf (xs ++ ys) × (s'.sent ≡ s.sent))
        (copy_from_user usr_entry fuel limit u_buf k_buf len s)
unfolding copy_from_user
copy_from_user-valid usr_entry fuel limit u_buf k_buf len s xs ys valid t r apart l f =
    rw valid
      (after (strcpy-Text fuel limit k_buf u_buf s xs ys f l apart t r) λ _ u h. ends (h.1, h.2))

-- For an address of the user's with the text `xs`, which the buffer does not overlap,
-- `syscall_puts` ends and prints `xs` and then what the stack holds behind the copy, up to a NUL:
-- here the text `ys`. Both texts together have fewer than 128 characters.
pub syscall_puts-valid :
    (usr_entry fuel buf : ℕ) (sys_m : SyscallMeta) (s : User) (xs ys : List ℕ)
    → user_addr_is_valid usr_entry (sys_m.fn_args 1) ≡ pos 0
    → Text s.mem (sys_m.fn_args 1) xs
    → Text s.mem (buf + length xs) ys
    → Apart (length xs) (sys_m.fn_args 1) buf
    → length xs + length ys < 128
    → length xs + length ys < fuel
    → Ends (λ _ s'. s'.sent ≡ s.sent ++ (xs ++ ys)) (syscall_puts usr_entry fuel buf sys_m s)
unfolding syscall_puts
syscall_puts-valid usr_entry fuel buf sys_m s xs ys valid t r apart room f =
    after
      (copy_from_user-valid usr_entry fuel (buf + 128) (sys_m.fn_args 1) buf 10 s xs ys valid t r
        apart (omega arith) (omega arith))
      λ n u (text, sent).
        let no_less : ltb n 0 ≡ false = ground arith in
        let sum = length-append xs ys in
        rw
          (
            no_less,
            puts-Text fuel (buf + 128) buf u (xs ++ ys) (omega (arith, sum)) (omega (arith, sum))
                text,
          )
          (ends (rw sent refl))

-- For an address of the user's with a text of more than 128 characters, which the buffer does not
-- overlap, `syscall_puts` writes behind the end of its buffer, whatever length it asks for. The
-- fuel is for more than 128 characters.
pub syscall_puts-overrun :
    (usr_entry fuel buf : ℕ) (sys_m : SyscallMeta) (s : User) (xs : List ℕ)
    → user_addr_is_valid usr_entry (sys_m.fn_args 1) ≡ pos 0
    → Text s.mem (sys_m.fn_args 1) xs
    → Apart (length xs) (sys_m.fn_args 1) buf
    → 128 < length xs
    → 128 < fuel
    → syscall_puts usr_entry fuel buf sys_m s ≡ fault
unfolding syscall_puts copy_from_user
syscall_puts-overrun usr_entry fuel buf sys_m s xs valid t apart long f =
    rw
      (
        valid,
        strcpy-overrun fuel (buf + 128) buf (sys_m.fn_args 1) s xs (omega arith) (omega arith)
            (omega arith) apart t,
      )
      refl
