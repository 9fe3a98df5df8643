-- ===== src/Mm/Bytes.antt =====
-- mm.c: `memcpy` and `memset`, on a memory of bytes by address. The first argument of a loop is the
-- rounds left, the second the counter `i`. That is an int: its step beyond 2 ^ 31 - 1 has no meaning
-- in C and is a fault here. Addresses have 64 bits.
use hob_os.Base.{
  ℕ, zero, suc, ◌+◌, ◌%◌, ◌^◌, ◌≤◌, ◌<◌, ◌≡◌, ◌≢◌, ◌⊎◌, ◌∙◌, update, eq→==, ne→==, lt→ltb, ltb,
  arith, if◌then◌else◌, refl, ap,
}
use hob_os.Base.Run.{Cmd, ok, fault, pure, modify, ◌>>◌, Ends, ends}

abbrev pub Memory : Type 0
Memory = ℕ → ℕ

unfoldable pub copy_loop : ℕ → ℕ → ℕ → ℕ → Cmd Memory (Unit {0})
copy_loop zero i d s = pure tt
copy_loop (suc n) i d s = do
  modify (λ m. update m ((d + i) % 2 ^ 64) (m ((s + i) % 2 ^ 64)))
  if ltb (i + 1) (2 ^ 31) then copy_loop n (i + 1) d s else λ _. fault

unfoldable pub memcpy : ℕ → ℕ → ℕ → Cmd Memory (Unit {0})
memcpy dst src size = copy_loop size 0 dst src

unfoldable pub fill_loop : ℕ → ℕ → ℕ → ℕ → Cmd Memory (Unit {0})
fill_loop zero i buf c = pure tt
fill_loop (suc n) i buf c = do
  modify (λ m. update m ((buf + i) % 2 ^ 64) c)
  if ltb (i + 1) (2 ^ 31) then fill_loop n (i + 1) buf c else λ _. fault

-- `c` is a char.
unfoldable pub memset : ℕ → ℕ → ℕ → Cmd Memory (Unit {0})
memset buf c size = fill_loop size 0 buf c

-- `n` bytes, as both loops move them where nothing overflows
copied : ℕ → ℕ → ℕ → Memory → Memory
copied zero d s m = m
copied (suc n) d s m = copied n (d + 1) (s + 1) (update m d (m s))

filled : ℕ → ℕ → ℕ → Memory → Memory
filled zero a c m = m
filled (suc n) a c m = filled n (a + 1) c (update m a c)

copy_loop-copied :
    (n i d s : ℕ) (m : Memory)
    → i + n < 2 ^ 31
    → d + i + n ≤ 2 ^ 64
    → s + i + n ≤ 2 ^ 64
    → copy_loop n i d s m ≡ ok tt (copied n (d + i) (s + i) m)
unfolding copy_loop copied
copy_loop-copied zero i d s m h hd hs = refl
copy_loop-copied (suc n) i d s m h hd hs =
    let a : (d + i) % 2 ^ 64 ≡ d + i = omega arith in
    let b : (s + i) % 2 ^ 64 ≡ s + i = omega arith in
    let c : d + (i + 1) ≡ d + i + 1 = omega arith in
    let e : s + (i + 1) ≡ s + i + 1 = omega arith in
    rw
      (
        a,
        b,
        lt→ltb (i + 1) (2 ^ 31) (omega arith),
        copy_loop-copied n (i + 1) d s (update m (d + i) (m (s + i))) (omega arith) (omega arith)
            (omega arith),
        c,
        e,
      )
      refl

fill_loop-filled :
    (n i p c : ℕ) (m : Memory)
    → i + n < 2 ^ 31
    → p + i + n ≤ 2 ^ 64
    → fill_loop n i p c m ≡ ok tt (filled n (p + i) c m)
unfolding fill_loop filled
fill_loop-filled zero i p c m h hp = refl
fill_loop-filled (suc n) i p c m h hp =
    let a : (p + i) % 2 ^ 64 ≡ p + i = omega arith in
    let e : p + (i + 1) ≡ p + i + 1 = omega arith in
    rw
      (
        a,
        lt→ltb (i + 1) (2 ^ 31) (omega arith),
        fill_loop-filled n (i + 1) p c (update m (p + i) c) (omega arith) (omega arith),
        e,
      )
      refl

-- No byte outside `n` bytes from `d` changes.
abbrev Untouched : ℕ → ℕ → Memory → Memory → Type 0
Untouched d n m m' = (a : ℕ) → a < d ⊎ d + n ≤ a → m' a ≡ m a

update-other : (m : Memory) (p v a : ℕ) → a ≢ p → update m p v a ≡ m a
update-other m p v a ne = rw (ne→== a p ne) refl

update-here : (m : Memory) (p v : ℕ) → update m p v p ≡ v
update-here m p v = rw (eq→== p p refl) refl

copied-Untouched : (n d s : ℕ) (m : Memory) → Untouched d n m (copied n d s m)
unfolding copied
copied-Untouched zero d s m a out = refl
copied-Untouched (suc n) d s m a out =
    copied-Untouched n (d + 1) (s + 1) (update m d (m s)) a (ground arith)
    ∙ update-other m d (m s) a (omega arith)

copied-at :
    (n d s i : ℕ) (m : Memory) → d ≤ s ⊎ s + n ≤ d → i < n → copied n d s m (d + i) ≡ m (s + i)
unfolding copied
copied-at zero d s i m apart h = absurd (omega arith)
copied-at (suc n) d s zero m apart h =
    copied-Untouched n (d + 1) (s + 1) (update m d (m s)) (d + 0) (ground arith)
    ∙ rw (eq→== (d + 0) d (omega arith)) (ap m (omega arith))
copied-at (suc n) d s (suc i) m apart h =
    ap (copied n (d + 1) (s + 1) (update m d (m s))) (omega arith)
    ∙ copied-at n (d + 1) (s + 1) i (update m d (m s)) (ground arith) (omega arith)
    ∙ update-other m d (m s) (s + 1 + i) (ground arith)
    ∙ ap m (omega arith)

filled-Untouched : (n p c : ℕ) (m : Memory) → Untouched p n m (filled n p c m)
unfolding filled
filled-Untouched zero p c m a out = refl
filled-Untouched (suc n) p c m a out =
    filled-Untouched n (p + 1) c (update m p c) a (ground arith)
    ∙ update-other m p c a (ground arith)

filled-at : (n p c i : ℕ) (m : Memory) → i < n → filled n p c m (p + i) ≡ c
unfolding filled
filled-at zero p c i m h = absurd (omega arith)
filled-at (suc n) p c zero m h =
    filled-Untouched n (p + 1) c (update m p c) (p + 0) (ground arith)
    ∙ rw (eq→== (p + 0) p (omega arith)) refl
filled-at (suc n) p c (suc i) m h =
    ap (filled n (p + 1) c (update m p c)) (omega arith)
    ∙ filled-at n (p + 1) c i (update m p c) (omega arith)

-- The size is below 2 ^ 31, and the source and the target end below 2 ^ 64. The target starts at or
-- before the source, or behind its end. Then `memcpy` ends; each byte of the target is the old byte
-- of the source, and no byte outside the target has changed. After `memset` of the source before
-- it, both end, and each byte of the target is the one `memset` was given.
pub memcpy-Copied :
    (dst src size c : ℕ) (m : Memory)
    → size < 2 ^ 31
    → dst + size ≤ 2 ^ 64
    → src + size ≤ 2 ^ 64
    → dst ≤ src ⊎ src + size ≤ dst
    → Ends
        (λ _ v.
          ((i : ℕ) → i < size → v (dst + i) ≡ m (src + i))
          × ((a : ℕ) → a < dst ⊎ dst + size ≤ a → v a ≡ m a))
        (memcpy dst src size m)
      × Ends
          (λ _ v. (i : ℕ) → i < size → v (dst + i) ≡ c)
          ((do memset src c size; memcpy dst src size) m)
unfolding memcpy memset
memcpy-Copied dst src size c m small hd hs apart =
    let d0 : dst + 0 ≡ dst = omega arith in
    let s0 : src + 0 ≡ src = omega arith in
    let f = filled size src c m in
    (
      rw (copy_loop-copied size 0 dst src m (omega arith) (omega arith) (omega arith), d0, s0)
          (ends (
            λ i h. copied-at size dst src i m apart h,
            λ a out. copied-Untouched size dst src m a out,
          )),
      rw
          (
            fill_loop-filled size 0 src c m (omega arith) (omega arith),
            s0,
            copy_loop-copied size 0 dst src f (omega arith) (omega arith) (omega arith),
            d0,
            s0,
          )
          (ends (λ i h. copied-at size dst src i f apart h ∙ filled-at size src c i m h)),
    )
