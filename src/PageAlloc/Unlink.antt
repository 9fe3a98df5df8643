-- ===== src/PageAlloc/Unlink.antt =====
-- `remove_loop`: a block is cut out of the list of its order.
use hob_os.Base.{
  ℕ, zero, suc, ◌+◌, ◌-◌, ◌%◌, ◌^◌, ◌≤◌, ◌<◌, ◌≡◌, ◌≢◌, refl, sym, List, [], ◌∷◌, true, false, ◌⊎◌,
  ◌==◌, if◌then◌else◌, length, IsFresh, IsDistinct, update, ne→==, eq→==, arith, Bool-cases, inl,
  inr, ==→eq,
}
use hob_os.Base.Run.{ok, Ends, ends, weaken}
use hob_os.Base.Chain.{All, All-ne, All-zip, Linked, Linked-same}
use hob_os.PageAlloc.Block.{Ptr, null, FreeListHeader, remove_loop, max_page_order}
use hob_os.PageAlloc.Rep.{nexts, load-ok, get_list-ok, put_list-ok, set_next-ok}

-- The list less its first element that is `a`.
abbrev pub without : ℕ → List ℕ → List ℕ
without a [] = []
without a (x ∷ xs) = if x == a then xs else x ∷ without a xs

pub All-without : (P : ℕ → Type 0) (a : ℕ) (xs : List ℕ) → All P xs → All P (without a xs)
All-without P a [] h = tt
All-without P a (x ∷ xs) h = elim (Bool-cases (x == a)) [
  | inl e ↦ rw e h.1
  | inr e ↦ rw e (h.0, All-without P a xs h.1)
]

pub IsFresh-without : (b a : ℕ) (xs : List ℕ) → IsFresh b xs → IsFresh b (without a xs)
IsFresh-without b a [] f = tt
IsFresh-without b a (x ∷ xs) f = elim (Bool-cases (x == a)) [
  | inl e ↦ rw e f.1
  | inr e ↦ rw e (f.0, IsFresh-without b a xs f.1)
]

pub IsDistinct-without : (a : ℕ) (xs : List ℕ) → IsDistinct xs → IsDistinct (without a xs)
IsDistinct-without a [] d = tt
IsDistinct-without a (x ∷ xs) d = elim (Bool-cases (x == a)) [
  | inl e ↦ rw e d.1
  | inr e ↦ rw e (IsFresh-without x a xs d.0, IsDistinct-without a xs d.1)
]

-- The lists with `ys` for the order `k`.
abbrev pub with_list : (ℕ → List Ptr) → ℕ → List Ptr → ℕ → List Ptr
with_list lists k ys j = if j == k then ys else lists j

-- `t` differs from `s` at most in the list of order `k` and in the links of the blocks `xs`.
pub record Changed (k : ℕ) (xs : List Ptr) (s t : FreeListHeader) : Type 0 where
  pub last_entry : t.last_entry ≡ s.last_entry
  pub others : (j : ℕ) → j ≢ k → t.list j ≡ s.list j
  pub same : (a : Ptr) → record (t.block a) { next = (s.block a).next } ≡ s.block a
  pub unlinked : (a : Ptr) → IsFresh a xs → nexts t a ≡ nexts s a

-- The block `pb` was cut out of the list from `p` behind its first element `c`.
pub record Cut (k pb p c : ℕ) (cs : List Ptr) (s t : FreeListHeader) : Type 0 where
  pub changed : Changed k (c ∷ cs) s t
  pub first : (t.list k).first ≡ (s.list k).first
  pub count : (t.list k).count ≡ ((s.list k).count + 2 ^ 32 - 1) % 2 ^ 32
  pub chain : Linked (nexts t) p (c ∷ without pb cs)
  pub one_less : length (without pb cs) + 1 ≡ length cs

module _ (k pb : ℕ) (small : k ≤ max_page_order) (ne : pb ≢ null) (s : FreeListHeader) where
  abbrev pub cut_at : Ptr → FreeListHeader
  cut_at c =
      let b1 = update s.block c (record (s.block c) { next = nexts s pb }) in
      record s {
        list =
            update s.list k
              (record (s.list k) { count = ((s.list k).count + 2 ^ 32 - 1) % 2 ^ 32 });
        block = update b1 pb (record (b1 pb) { next = null });
      }

  pub cut_at-Cut :
      (p c : Ptr) (ds : List Ptr)
      → Linked (nexts s) p (c ∷ pb ∷ ds)
      → IsDistinct (c ∷ pb ∷ ds)
      → Cut k pb p c (pb ∷ ds) s (cut_at c)
  cut_at-Cut p c ds l d =
      let apart : c ≢ pb = d.0.0 in
      let away : All (λ a. nexts (cut_at c) a ≡ nexts s a) ds =
        All-zip ds (λ a x y. ground arith) (All-ne c ds d.0.1) (All-ne pb ds d.1.0) in
      let after : nexts (cut_at c) c ≡ nexts s pb = ground arith in
      record {
        changed = record {
          last_entry = refl;
          others = λ j h. ground arith;
          same = λ a. ground arith;
          unlinked = λ a f. ground arith;
        };
        first = ground arith;
        count = ground arith;
        chain = rw (eq→== pb pb refl) (
          l.0,
          l.1,
          rw after (Linked-same (nexts s) (nexts (cut_at c)) (nexts s pb) ds away l.2.2),
        );
        one_less = rw (eq→== pb pb refl) (omega arith);
      }

  Cut-cons :
      (p c e : Ptr) (ds : List Ptr) {t : FreeListHeader}
      → Linked (nexts s) p (c ∷ e ∷ ds)
      → IsDistinct (c ∷ e ∷ ds)
      → (e == pb) ≡ false
      → Cut k pb (nexts s c) e ds s t
      → Cut k pb p c (e ∷ ds) s t
  Cut-cons p c e ds l d other u = record {
    changed = record {
      last_entry = u.changed.last_entry;
      others = u.changed.others;
      same = u.changed.same;
      unlinked = λ a f. u.changed.unlinked a f.1;
    };
    first = u.first;
    count = u.count;
    chain = rw other (l.0, l.1, rw (u.changed.unlinked c d.0) u.chain);
    one_less = rw other (omega (arith, u.one_less));
  }

  pub remove_loop-null : (n : ℕ) → 0 < n → remove_loop n k pb null s ≡ ok true s
  unfolding remove_loop
  remove_loop-null zero h = absurd (omega arith)
  remove_loop-null (suc n) h = refl

  -- `remove_loop` fails and changes nothing, or it cuts the block out.
  pub remove_loop-Cut :
      (n : ℕ) (p c : Ptr) (cs : List Ptr)
      → Linked (nexts s) p (c ∷ cs)
      → IsDistinct (c ∷ cs)
      → length cs + 1 < n
      → Ends
          (λ failed t. ((failed ≡ true) × (t ≡ s)) ⊎ ((failed ≡ false) × Cut k pb p c cs s t))
          (remove_loop n k pb p s)
  unfolding remove_loop
  remove_loop-Cut zero p c cs l d f = absurd (omega arith)
  remove_loop-Cut (suc n) p c [] l d f =
      rw
        (
          l.0,
          ne→== c null l.1,
          load-ok s c l.1,
          l.2,
          ne→== null pb (λ e. ne (sym e)),
          remove_loop-null n (omega arith),
        )
        (ends (inl (refl, refl)))
  remove_loop-Cut (suc n) p c (e ∷ ds) l d f =
      rw (l.0, ne→== c null l.1, load-ok s c l.1, l.2.0)
        (elim (Bool-cases (e == pb)) [
          | inl same ↦
              let at : e ≡ pb = ==→eq e pb same in
              rw
                (
                  same,
                  get_list-ok s k small,
                  put_list-ok s k _ small,
                  load-ok _ pb ne,
                  set_next-ok _ c _ l.1,
                  set_next-ok _ pb _ ne,
                )
                (ends (
                  inr (
                    refl,
                    rw at (cut_at-Cut c c ds (rw (sym at) (refl, l.1, l.2)) (rw (sym at) d)),
                  )))
          | inr other ↦ rw other (
              weaken (remove_loop-Cut n e e ds (refl, l.2.1, l.2.2) d.1 (omega arith))
                λ failed t done. elim done [
                  | inl same ↦ inl same
                  | inr (e1, u) ↦ inr (e1, Cut-cons c c e ds (refl, l.1, l.2) d other (rw l.2.0 u))
                ])
        ])
