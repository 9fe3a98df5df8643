-- ===== src/PageAlloc/Loop.antt =====
-- `create_free_list` for several blocks: the last of them becomes its own successor.
use hob_os.Base.{
  ℕ, zero, suc, ◌+◌, ◌%◌, ◌^◌, ◌≤◌, ◌<◌, ◌≡◌, ◌≢◌, refl, sym, subst, ◌∙◌, ◌==◌, update, ne→==,
  arith, Bool-cases, inl, inr, ==→ne,
}
use native.Mathlib.Decide.{dec_lt}
use hob_os.Base.Run.{ok, ◌>>=◌, ◌>>◌, out_of_fuel, Ends, ends, after, weaken}
use hob_os.PageAlloc.Block.{
  Ptr, null, FreeListHeader, max_page_order, last_loop, add_block_to_order, block_phy_offset,
  get_list_size,
}
use hob_os.PageAlloc.Alloc.{create_loop, create_free_list}
use hob_os.PageAlloc.Rep.{nexts, load-ok, store-ok, set_next-ok, get_list-ok, put_list-ok}
use hob_os.PageAlloc.Append.{created, new_page_block-created}

-- Each block from `a` on is followed by the next one, up to the block `e`.
abbrev IsRow : FreeListHeader → Ptr → Ptr → Type 0
IsRow s a e = (i : Ptr) → a ≤ i → i < e → nexts s i ≡ i + 1

last_loop-row :
    (k : ℕ) (s : FreeListHeader) (i e : Ptr)
    → i ≢ null
    → i ≤ e
    → e < i + k
    → IsRow s i e
    → nexts s e ≡ null
    → last_loop k i s ≡ ok e s
unfolding last_loop
last_loop-row zero s i e ne le f row end = absurd (omega arith)
last_loop-row (suc k) s i e ne le f row end = elim (dec_lt i e) [
  | yes l ↦
      rw (load-ok s i ne, row i (omega arith) l, ne→== (i + 1) null (omega arith))
        (last_loop-row k s (i + 1) e (omega arith) (omega arith) (omega arith)
          (λ j lo hi. row j (omega arith) hi) end)
  | no l ↦ let same : i ≡ e = omega arith in rw (load-ok s i ne, same, end)
]

-- A row whose last block is its own successor has no end.
last_loop-endless :
    (k : ℕ) (s : FreeListHeader) (i e : Ptr)
    → i ≢ null
    → i ≤ e
    → IsRow s i e
    → nexts s e ≡ e
    → last_loop k i s ≡ out_of_fuel
unfolding last_loop
last_loop-endless zero s i e ne le row end = refl
last_loop-endless (suc k) s i e ne le row end = elim (dec_lt i e) [
  | yes l ↦
      rw (load-ok s i ne, row i (omega arith) l, ne→== (i + 1) null (omega arith))
        (last_loop-endless k s (i + 1) e (omega arith) (omega arith)
          (λ j lo hi. row j (omega arith) hi) end)
  | no l ↦
      let same : i ≡ e = omega arith in
      let end' : nexts s i ≡ i = rw same end in
      rw (load-ok s i ne, end', ne→== i null ne) (last_loop-endless k s i e ne le row end)
]

-- The list of order `k` is the row from `a` to the newest block.
record Row (k a : ℕ) (s : FreeListHeader) : Type 0 where
  first : (s.list k).first ≡ a
  start : a ≢ null
  below : a ≤ s.last_entry
  row : IsRow s a s.last_entry

module _ (fuel k : ℕ) (small : k ≤ max_page_order) where
  -- The first block of the order
  add_block-first :
      (s : FreeListHeader)
      → (s.list k).first ≡ null
      → s.last_entry ≢ null
      → Ends
          (λ _ t. Row k s.last_entry t × (t.last_entry ≡ s.last_entry))
          (add_block_to_order fuel s.last_entry k s)
  unfolding add_block_to_order
  add_block-first s e ne =
      rw
        (
          load-ok s s.last_entry ne,
          store-ok s s.last_entry _ ne,
          get_list-ok _ k small,
          e,
          put_list-ok _ k _ small,
          get_list-ok _ k small,
          put_list-ok _ k _ small,
        )
        (ends (
          record {
            first = ground arith;
            start = ne;
            below = omega arith;
            row = λ i lo hi. absurd (omega arith);
          },
          refl,
        ))

  -- A further block, which the row leads to already
  add_block-again :
      (s : FreeListHeader) (a : Ptr)
      → Row k a s
      → a < s.last_entry
      → s.last_entry < a + fuel
      → nexts s s.last_entry ≡ null
      → Ends
          (λ _ t. Row k a t × (t.last_entry ≡ s.last_entry) × (nexts t t.last_entry ≡ t.last_entry))
          (add_block_to_order fuel s.last_entry k s)
  unfolding add_block_to_order
  add_block-again s a r more f end =
      let e = s.last_entry in
      let ne : e ≢ null = omega arith in
      let u : FreeListHeader = record s {
        block = update s.block e (record (s.block e) { order = k });
      } in
      let walk : last_loop fuel a u ≡ ok e u =
        last_loop-row fuel u a e r.start r.below f (λ i lo hi. ground (arith, r.row i lo hi))
          (ground (arith, end)) in
      rw
        (
          load-ok s e ne,
          store-ok s e _ ne,
          get_list-ok _ k small,
          r.first,
          ne→== a null r.start,
          walk,
          set_next-ok _ e e ne,
          get_list-ok _ k small,
          put_list-ok _ k _ small,
        )
        (ends (
          record {
            first = ground (arith, r.first);
            start = r.start;
            below = r.below;
            row = λ i lo hi. ground (arith, r.row i lo hi);
          },
          refl,
          ground arith,
        ))

  -- The new block, with the block before it linked to it
  abbrev linked : FreeListHeader → ℕ → FreeListHeader
  linked s addr =
      let c = created s addr in
      record c {
        block =
            update c.block s.last_entry (record (c.block s.last_entry) { next = s.last_entry + 1 });
      }

  linked-Row : (s : FreeListHeader) (addr a : ℕ) → Row k a s → Row k a (linked s addr)
  linked-Row s addr a r = record {
    first = r.first;
    start = r.start;
    below = omega (arith, r.below);
    row = λ i lo hi. ground (arith, r.row i lo);
  }

  -- Further rounds of the loop
  create_loop-Row :
      (n addr a : ℕ) (s : FreeListHeader)
      → Row k a s
      → s.last_entry + n < fuel
      → (n ≡ 0 → nexts s s.last_entry ≡ s.last_entry)
      → Ends
          (λ _ t. Row k a t × (nexts t t.last_entry ≡ t.last_entry))
          (create_loop fuel n k addr s.last_entry s)
  unfolding create_loop block_phy_offset get_list_size
  create_loop-Row zero addr a s r f end = ends (r, end refl)
  create_loop-Row (suc n) addr a s r f end =
      let ne : s.last_entry ≢ null = omega (arith, r.start, r.below) in
      rw
        (
          new_page_block-created s addr,
          ne→== s.last_entry null ne,
          set_next-ok (created s addr) s.last_entry (s.last_entry + 1) ne,
        )
        (after
          (add_block-again (linked s addr) a (linked-Row s addr a r) (omega (arith, r.below))
            (omega (arith, r.start, r.below)) (ground arith))
          λ _ t (row, last, self).
            rw (get_list-ok t k small, sym last)
              (create_loop-Row n _ a t row (omega (arith, last)) (λ z. self)))

  -- The first round
  create_loop-first :
      (n addr : ℕ) (s v : FreeListHeader)
      → (v.list k).first ≡ null
      → v.last_entry ≡ s.last_entry + 1
      → s.last_entry + suc (suc n) < fuel
      → Ends
          (λ _ t. Row k (s.last_entry + 1) t × (nexts t t.last_entry ≡ t.last_entry))
          ((do
            add_block_to_order fuel (s.last_entry + 1) k
            offset ← block_phy_offset k
            create_loop fuel (suc n) k ((addr + offset) % 2 ^ 64) (s.last_entry + 1))
            v)
  unfolding block_phy_offset get_list_size
  create_loop-first n addr s v e last f = rw (sym last) (
      after (add_block-first v e (omega (arith, last))) λ _ t (row, same).
        rw (get_list-ok t k small, sym same)
          (create_loop-Row (suc n) _ t.last_entry t (subst (λ x. Row k x t) (sym same) row)
            (omega (arith, same, last)) (λ z. absurd (omega (arith, z)))))

  -- An insertion walks to the end of the row.
  add_block-endless :
      (t : FreeListHeader) (a : Ptr)
      → Row k a t
      → nexts t t.last_entry ≡ t.last_entry
      → (j pb : ℕ) → pb ≢ null
      → add_block_to_order j pb k t ≡ out_of_fuel
  unfolding add_block_to_order
  add_block-endless t a r self j pb ne =
      let u : FreeListHeader = record t {
        block = update t.block pb (record (t.block pb) { order = k });
      } in
      let same : (i : Ptr) → nexts u i ≡ nexts t i = λ i. ground arith in
      rw (
        load-ok t pb ne,
        store-ok t pb _ ne,
        get_list-ok _ k small,
        r.first,
        ne→== a null r.start,
        last_loop-endless j u a t.last_entry r.start r.below (λ i lo hi. same i ∙ r.row i lo hi)
            (same t.last_entry ∙ self),
      )

  -- The list of order k is empty. Then `create_free_list` for two or more blocks of order k ends,
  -- but from then on `add_block_to_order` never ends for this order, however many steps its walk to
  -- the end of the list is given.
  pub create_free_list-endless :
      (n addr : ℕ) (s : FreeListHeader)
      → (s.list k).first ≡ null
      → s.last_entry + suc (suc n) < fuel
      → Ends
          (λ _ t. (j pb : ℕ) → pb ≢ null → add_block_to_order j pb k t ≡ out_of_fuel)
          (create_free_list fuel addr k (suc (suc n)) s)
  unfolding create_free_list create_loop
  create_free_list-endless n addr s e f =
      let row =
        λ (t : FreeListHeader)
            (h : Row k (s.last_entry + 1) t × (nexts t t.last_entry ≡ t.last_entry)).
          add_block-endless t (s.last_entry + 1) h.0 h.1 in
      rw (new_page_block-created s addr) (elim (Bool-cases (s.last_entry == null)) [
        | inl z ↦
            rw z (weaken (create_loop-first n addr s (created s addr) e refl f) λ _ t h. row t h)
        | inr z ↦
            rw (z, set_next-ok (created s addr) s.last_entry (s.last_entry + 1) (==→ne _ _ z))
              (weaken (create_loop-first n addr s (linked s addr) e refl f) λ _ t h. row t h)
      ])
