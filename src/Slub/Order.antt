-- ===== src/Slub/Order.antt =====
-- `kmem_get_obj_order`, and the sizes that `kmalloc` gives it.
use hob_os.Base.{
  ℕ, zero, suc, ◌+◌, ◌^◌, ◌≤◌, ◌<◌, ◌≡◌, ◌≢◌, refl, ◌/◌, true, false, ltb, ◌==◌, ne→==, arith,
  Bool-cases, inl, inr,
}
use hob_os.Base.Run.{fault, Ends, ends, Ends-eq}
use native.Mathlib.Nat.{pow-suc}
use hob_os.PageAlloc.Safety.{not_last}
use hob_os.Task.{Ptr, null}
use hob_os.Slub.{Slab, load_fl, order_offset, obj_order_loop, kmem_get_obj_order}
use hob_os.Slub.Cache.{kmem_get_curr_cache, kmem_extract_obj_from_fl, kmem_acquire_obj, slub_alloc}
use hob_os.Mm.{kmalloc}

-- `o` is the least order, from `MIN_ORDER_KMEM` on, whose objects have `size` bytes.
abbrev pub IsObjOrder : ℕ → ℕ → Type 0
IsObjOrder size o = (6 ≤ o) × (size ≤ 2 ^ o) × ((j : ℕ) → 6 ≤ j → j < o → 2 ^ j < size)

extend_below :
    (size i : ℕ)
    → ltb (2 ^ i) size ≡ true
    → ((j : ℕ) → 6 ≤ j → j < i → 2 ^ j < size)
    → (j : ℕ) → 6 ≤ j
    → j < i + 1
    → 2 ^ j < size
extend_below size i e below j l h = elim (Bool-cases (j == i)) [
  | inl s ↦ ground arith
  | inr s ↦ below j l (ground arith)
]

obj_order_loop-IsObjOrder :
    (k size i m : ℕ) (s : Slab)
    → size ≤ 2 ^ m
    → i ≤ m
    → m < i + k
    → 6 ≤ i
    → ((j : ℕ) → 6 ≤ j → j < i → 2 ^ j < size)
    → Ends (λ o t. (t ≡ s) × IsObjOrder size o × (o ≤ m)) (obj_order_loop k size i s)
unfolding obj_order_loop
obj_order_loop-IsObjOrder zero size i m s big im f l below = absurd (omega arith)
obj_order_loop-IsObjOrder (suc k) size i m s big im f l below =
    elim (Bool-cases (ltb (2 ^ i) size)) [
      | inl e ↦ rw e (
          obj_order_loop-IsObjOrder k size (i + 1) m s big (not_last size i m big im e)
            (omega arith) (omega arith) (extend_below size i e below))
      | inr e ↦ rw e (ends (refl, (l, ground arith, below), im))
    ]

-- For a size of at most 2 ^ 30, `kmem_get_obj_order` ends, changes nothing, and returns the least
-- order from 6 on whose objects have that size.
pub kmem_get_obj_order-IsObjOrder :
    (size : ℕ) (s : Slab)
    → size ≤ 2 ^ 30
    → Ends (λ o t. (t ≡ s) × IsObjOrder size o × (o ≤ 30)) (kmem_get_obj_order size s)
unfolding kmem_get_obj_order
kmem_get_obj_order-IsObjOrder size s h =
    obj_order_loop-IsObjOrder 32 size 6 30 s h (omega arith) (omega arith) (omega arith)
      (λ j l h. absurd (omega arith))

pub pow_le : (o n : ℕ) → o ≤ n → 2 ^ o ≤ 2 ^ n
pow_le o zero h = let z : o ≡ 0 = omega arith in rw z (omega arith)
pow_le o (suc n) h = elim (Bool-cases (o == suc n)) [
  | inl e ↦ let z : o ≡ suc n = ground arith in rw z (omega arith)
  | inr e ↦ let z : o ≤ n = ground arith in omega (arith, pow_le o n z, pow-suc 2 n)
]

module _ (core fuel : ℕ) (idle_task : Ptr) where
  -- `kmalloc` of more than 1024 and less than 4096 bytes reads outside the array of caches, on a
  -- core whose first cache has been made.
  pub kmalloc-between :
      (size : ℕ) (s : Slab)
      → core < 4
      → (s.fls core).cache 0 ≢ null
      → 1024 < size
      → size < 4096
      → kmalloc core fuel idle_task size s ≡ fault
  unfolding kmalloc slub_alloc kmem_acquire_obj kmem_extract_obj_from_fl kmem_get_curr_cache
      order_offset load_fl
  kmalloc-between size s c ready large small =
      let (o, t, e, found) = Ends-eq (kmem_get_obj_order-IsObjOrder size s (omega arith)) in
      let big : 10 < o = elim (Bool-cases (ltb 10 o)) [
        | inl h ↦ ground arith
        | inr h ↦ absurd (omega (arith, found.1.1, pow_le o 10 (ground arith)))
      ] in
      let page : size / 4096 ≡ 0 = omega arith in
      let cores : ltb core 4 ≡ true = ground arith in
      let no_small : ltb o 6 ≡ false = ground arith in
      let large_o : ltb 10 o ≡ true = ground arith in
      rw
        (page, cores, ne→== ((s.fls core).cache 0) null ready, e, found.0, cores, no_small, large_o)
