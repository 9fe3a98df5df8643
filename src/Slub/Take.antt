-- ===== src/Slub/Take.antt =====
-- Allocation from a cache that has several objects left.
use hob_os.Base.{
  ℕ, zero, suc, ◌+◌, ◌≤◌, ◌<◌, ◌≡◌, ◌≢◌, ◌∙◌, Bool-cases, inl, inr, refl, List, [], ◌∷◌, ◌++◌, true,
  ◌==◌, update, eq→==, ne→==, arith, ltb, length, IsFresh, IsDistinct,
}
use hob_os.Base.Run.{Cmd, ok, pure, ◌>>=◌, ◌>>◌, Ends, ends}
use hob_os.Base.Chain.{
  All, All-map, All-ne, Linked, Linked-same, Linked-ne, Linked-cut, Linked-snoc, last, ne-last,
  All-last,
}
use hob_os.Task.{Ptr, null}
use hob_os.Task.Access.{load-ok, load_ctxt-ok, store_ctxt-ok}
use hob_os.Slub.{Slab, load_obj, load_fl, load_cache, extract_loop, last_obj_loop}
use hob_os.Slub.Cache.{kmem_extract_obj_from_cache, kmem_acquire_obj, kmem_add_to_task, slub_alloc}
use hob_os.Slub.Ready.{Ready, used, load_obj-ok, set_next-ok, current-Ready, cache-Ready}

abbrev pub nexts : Slab → ℕ → ℕ
nexts s a = (s.obj a).next

-- The state after `p->next = q`
abbrev pub tie : Slab → Ptr → Ptr → Slab
tie s p q = record s { obj = update s.obj p (record (s.obj p) { next = q }) }

pub tie-this : (s : Slab) (p q : Ptr) → nexts (tie s p q) p ≡ q
tie-this s p q = ground arith

pub tie-other : (s : Slab) (p q a : Ptr) → a ≢ p → nexts (tie s p q) a ≡ nexts s a
tie-other s p q a d = ground arith

tie-addr : (s : Slab) (p q a : Ptr) → ((tie s p q).obj a).addr ≡ (s.obj a).addr
tie-addr s p q a = elim (Bool-cases (a == p)) [ inl e ↦ ground arith | inr e ↦ ground arith ]

extract_loop-last :
    (k : ℕ) (p q x : Ptr) (s : Slab) (xs : List Ptr) (y : Ptr)
    → Linked (nexts s) q (x ∷ xs ++ y ∷ [])
    → length xs + 1 < k
    → extract_loop k p x s ≡ ok (last x xs, y) s
unfolding extract_loop last
extract_loop-last zero p q x s xs y l f = absurd (omega arith)
extract_loop-last (suc zero) p q x s xs y l f = absurd (omega arith)
extract_loop-last (suc (suc k)) p q x s [] y l f =
    rw (load_obj-ok s x l.1, l.2.0, ne→== y null l.2.1, load_obj-ok s y l.2.1, l.2.2)
extract_loop-last (suc (suc k)) p q x s (z ∷ zs) y l f =
    rw (load_obj-ok s x l.1, l.2.0, ne→== z null l.2.1)
      (extract_loop-last (suc k) x (nexts s x) z s zs y l.2 (omega arith))

last_obj_loop-last :
    (k : ℕ) (q u : Ptr) (s : Slab) (us : List Ptr)
    → Linked (nexts s) q (u ∷ us)
    → length us < k
    → last_obj_loop k u s ≡ ok (last u us) s
unfolding last_obj_loop last
last_obj_loop-last zero q u s us l f = absurd (omega arith)
last_obj_loop-last (suc k) q u s [] l f = rw (load_obj-ok s u l.1, l.2)
last_obj_loop-last (suc k) q u s (z ∷ zs) l f =
    rw (load_obj-ok s u l.1, l.2.0, ne→== z null l.2.1)
      (last_obj_loop-last k (nexts s u) z s zs l.2 (omega arith))

-- `c` holds the objects `x`, `xs` and `y` in order, and the task uses the objects `us`.
pub record Stocked (core size : ℕ) (s : Slab) (c t cx x : Ptr) (xs : List Ptr) (y : Ptr)
    (us : List Ptr) : Type 0 where
  pub here : Ready core size s c t cx
  pub stock : Linked (nexts s) (s.cache c).first (x ∷ xs ++ y ∷ [])
  pub using : Linked (nexts s) (used s cx) us
  pub last_first : IsFresh y (x ∷ xs)
  pub distinct : IsDistinct (x ∷ xs)
  pub distinct_us : IsDistinct us
  pub apart : All (λ a. IsFresh a (x ∷ xs)) us
  pub last_apart : IsFresh y us

y_ne : (nx : ℕ → ℕ) (q x y : ℕ) (xs : List ℕ) → Linked nx q (x ∷ xs ++ y ∷ []) → y ≢ 0
y_ne nx q x y [] l = l.2.1
y_ne nx q x y (z ∷ zs) l = y_ne nx (nx x) z y zs l.2

y_end : (nx : ℕ → ℕ) (q x y : ℕ) (xs : List ℕ) → Linked nx q (x ∷ xs ++ y ∷ []) → nx y ≡ 0
y_end nx q x y [] l = l.2.2
y_end nx q x y (z ∷ zs) l = y_end nx (nx x) z y zs l.2

x_ne-last : (nx : ℕ → ℕ) (q x y : ℕ) (xs : List ℕ) → Linked nx q (x ∷ xs ++ y ∷ []) → last x xs ≢ 0
unfolding last
x_ne-last nx q x y [] l = l.1
x_ne-last nx q x y (z ∷ zs) l = x_ne-last nx (nx x) z y zs l.2

module _ (core k size : ℕ) (idle_task c t cx x : Ptr) (xs : List Ptr) (y : Ptr)
    (small : size ≤ 1024) where
  -- `y` is taken off the list of the cache.
  abbrev off : Slab → Slab
  off s = tie s (last x xs) null

  acquire-last :
      {s : Slab} (us : List Ptr)
      → Stocked core size s c t cx x xs y us
      → length xs + 1 < k
      → kmem_acquire_obj core k size s ≡ ok y (off s)
  unfolding kmem_extract_obj_from_cache load_cache
  acquire-last {s} us h f = rw (
    cache-Ready k small h.here,
    ne→== c null h.here.c_ne,
    h.stock.0,
    ne→== x null h.stock.1,
    extract_loop-last k x (s.cache c).first x s xs y h.stock f,
    set_next-ok s (last x xs) null (x_ne-last (nexts s) (s.cache c).first x y xs h.stock),
  )

  abbrev given : Cmd Slab Ptr
  given = do kmem_add_to_task core k t y; o ← load_obj y; pure o.addr

  slub_alloc-last :
      {s : Slab} (us : List Ptr)
      → Stocked core size s c t cx x xs y us
      → length xs + 1 < k
      → slub_alloc core k idle_task size s ≡ given (off s)
  unfolding slub_alloc load_fl
  slub_alloc-last {s} us h f =
      let cores : ltb core 4 ≡ true = ground (arith, h.here.core_ok) in
      rw (
        cores,
        ne→== ((s.fls core).cache 0) null h.here.made,
        acquire-last us h f,
        ne→== y null (y_ne (nexts s) (s.cache c).first x y xs h.stock),
        current-Ready idle_task h.here,
        ne→== t null h.here.t_ne,
      )

  -- `y` alone, no longer in the list of the cache
  abbrev lone : Slab → Slab
  lone s = tie (off s) y null

  -- What the allocation leaves: `y` has left the cache, and stands behind the task's objects.
  abbrev pub Taken : Slab → List Ptr → Ptr → Slab → Type 0
  Taken s us r s' =
      (r ≡ (s.obj y).addr)
      × Linked (nexts s') (s'.cache c).first (x ∷ xs)
      × Linked (nexts s') (used s' cx) (us ++ y ∷ [])

  module _ {s : Slab} (us : List Ptr) (h : Stocked core size s c t cx x xs y us) where
    lone-next : (a : Ptr) → a ≢ last x xs → nexts (lone s) a ≡ nexts s a
    lone-next a d = ground (arith, y_end (nexts s) (s.cache c).first x y xs h.stock)

    lone-last : nexts (lone s) (last x xs) ≡ 0
    lone-last = ground (arith, ne-last x xs h.last_first)

    lone-stock : Linked (nexts (lone s)) (s.cache c).first (x ∷ xs)
    lone-stock =
        Linked-cut (nexts s) (nexts (lone s)) (s.cache c).first x xs y h.stock h.distinct lone-last
          lone-next

    lone-using : Linked (nexts (lone s)) (used s cx) us
    lone-using =
        Linked-same (nexts s) (nexts (lone s)) (used s cx) us
          (All-map us (λ a f. lone-next a (ne-last x xs f)) h.apart) h.using

    lone-addr : ((lone s).obj y).addr ≡ (s.obj y).addr
    lone-addr = ground (arith, ne-last x xs h.last_first)

  given-nil : {s : Slab} → Stocked core size s c t cx x xs y [] → Ends (Taken s []) (given (off s))
  unfolding kmem_add_to_task
  given-nil {s} h =
      let ne = y_ne (nexts s) (s.cache c).first x y xs h.stock in
      rw
        (
          load-ok s.kernel t h.here.t_ne,
          h.here.ctxt,
          load_ctxt-ok s.kernel cx h.here.cx_ne,
          set_next-ok (off s) y null ne,
          h.using,
          store_ctxt-ok s.kernel cx h.here.cx_ne,
          load_obj-ok _ y ne,
        )
        (ends
          {s = record (lone s) {
            kernel = record s.kernel {
              ctxt = update s.kernel.ctxt cx (record (s.kernel.ctxt cx) { used_kmem = y });
            };
          }}
          (
            lone-addr [] h,
            lone-stock [] h,
            (rw (used, eq→== cx cx refl), ne, tie-this (off s) y null),
          ))

  given-cons :
      {s : Slab} (u : Ptr) (us : List Ptr)
      → Stocked core size s c t cx x xs y (u ∷ us)
      → length us < k
      → Ends (Taken s (u ∷ us)) (given (off s))
  unfolding kmem_add_to_task
  given-cons {s} u us h f =
      let ne = y_ne (nexts s) (s.cache c).first x y xs h.stock in
      let q = used s cx in
      let l = lone-using (u ∷ us) h in
      let end = last u us in
      let end_ne : end ≢ 0 = All-last (λ a. a ≢ 0) u us (Linked-ne (nexts (lone s)) q (u ∷ us) l) in
      let s3 : Slab = tie (lone s) end y in
      rw
        (
          load-ok s.kernel t h.here.t_ne,
          h.here.ctxt,
          load_ctxt-ok s.kernel cx h.here.cx_ne,
          set_next-ok (off s) y null ne,
          h.using.0,
          ne→== u null h.using.1,
          last_obj_loop-last k q u (lone s) us l f,
          set_next-ok (lone s) end y end_ne,
          load_obj-ok s3 y ne,
        )
        (ends {s = s3} (
          tie-addr (lone s) end y y ∙ lone-addr (u ∷ us) h,
          Linked-same (nexts (lone s)) (nexts s3) (s.cache c).first (x ∷ xs)
              (All-map (x ∷ xs) (λ a d. tie-other (lone s) end y a d)
                (All-ne end (x ∷ xs) (All-last (λ a. IsFresh a (x ∷ xs)) u us h.apart)))
              (lone-stock (u ∷ us) h),
          Linked-snoc (nexts (lone s)) (nexts s3) y q u us l h.distinct_us h.last_apart ne
              (tie-other (lone s) end y y (ne-last u us h.last_apart) ∙ tie-this (off s) y null)
              (tie-this (lone s) end y) (λ a d _. tie-other (lone s) end y a d),
        ))

  -- On a core whose cache for a size of at most 1024 holds at least two objects, with its objects
  -- and those of the current task in order and apart, and fewer than the fuel, `slub_alloc` ends
  -- and returns the address of the last object. That object leaves the cache, and stands behind
  -- the other objects of the task.
  pub slub_alloc-Taken :
      {s : Slab} (us : List Ptr)
      → Stocked core size s c t cx x xs y us
      → length xs + 1 < k
      → length us ≤ k
      → Ends (Taken s us) (slub_alloc core k idle_task size s)
  slub_alloc-Taken [] h f g = rw (slub_alloc-last [] h f) (given-nil h)
  slub_alloc-Taken (u ∷ us) h f g =
      rw (slub_alloc-last (u ∷ us) h f) (given-cons u us h (omega arith))
