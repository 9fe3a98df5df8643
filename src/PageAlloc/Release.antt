-- ===== src/PageAlloc/Release.antt =====
-- `page_free` on a state whose lists are in order.
use hob_os.Base.{
  ℕ, ◌+◌, ◌^◌, ◌≤◌, ◌<◌, ◌≡◌, ◌≢◌, refl, ◌∙◌, List, [], ◌⊎◌, ◌==◌, length, update, eq→==, arith,
  Bool-cases, inl, inr, ==→eq, ==→ne,
}
use hob_os.Base.Chain.{All-any, All-map, Linked-same}
use hob_os.Base.Run.{ok, Ends, ends, after, weaken}
use hob_os.PageAlloc.Block.{Ptr, null, FreeListHeader, max_page_order}
use hob_os.PageAlloc.Alloc.{merge_depth, mark_block_free, page_free}
use hob_os.PageAlloc.Rep.{nexts, Rep, load-ok, store-ok}
use hob_os.PageAlloc.Find.{IsAbsent, find_block_by_pfn-Located}
use hob_os.PageAlloc.Merge.{Merged, merge_buddy-IsSafe}

-- The block with other flags
abbrev pub flagged : FreeListHeader → Ptr → ℕ → FreeListHeader
flagged s pb v = record s { block = update s.block pb (record (s.block pb) { flags = v }) }

-- The state behind `mark_block_free`
abbrev pub unmarked : FreeListHeader → Ptr → FreeListHeader
unmarked s pb = flagged s pb 0

pub mark_block_free-ok :
    (s : FreeListHeader) (pb : Ptr) → pb ≢ null → mark_block_free pb s ≡ ok tt (unmarked s pb)
unfolding mark_block_free
mark_block_free-ok s pb ne = rw (load-ok s pb ne) (store-ok s pb _ ne)

pub Rep-flagged :
    {b : ℕ} {s : FreeListHeader} {lists : ℕ → List Ptr} (pb : Ptr) (v : ℕ)
    → Rep b s lists
    → Rep b (flagged s pb v) lists
Rep-flagged {b} {s} {lists} pb v r =
    let t = flagged s pb v in
    let next : (a : ℕ) → nexts t a ≡ nexts s a = λ a. ground arith in
    let order : (a : ℕ) → (t.block a).order ≡ (s.block a).order = λ a. ground arith in
    record {
      orders = r.orders;
      started = r.started;
      chain = λ j h.
          Linked-same (nexts s) (nexts t) (s.list j).first (lists j) (All-any (lists j) next)
            (r.chain j h);
      counted = r.counted;
      members = λ j h. All-map (lists j) (λ a m. (order a ∙ m.0, m.1)) (r.members j h);
      distinct = r.distinct;
      short = r.short;
    }

pub Rep-unmarked :
    {b : ℕ} {s : FreeListHeader} {lists : ℕ → List Ptr} (pb : Ptr)
    → Rep b s lists
    → Rep b (unmarked s pb) lists
Rep-unmarked pb r = Rep-flagged pb 0 r

-- A block of `s` with the page `pfn` was given back: the lists of `t` are in order.
pub record Released (pfn : ℕ) (s t : FreeListHeader) : Type 0 where
  pub pb : Ptr
  pub made : pb ≤ s.last_entry
  pub address : (s.block pb).page ≡ pfn
  pub free : record (t.block pb) { next = (s.block pb).next } ≡ record (s.block pb) { flags = 0 }
  pub others :
      (a : Ptr)
      → a ≤ s.last_entry
      → a ≢ pb
      → record (t.block a) { next = (s.block a).next } ≡ s.block a
  pub grown : s.last_entry ≤ t.last_entry
  pub room : t.last_entry ≤ s.last_entry + merge_depth
  pub in_order : (lists : ℕ → List Ptr) × Rep (max_page_order + 1) t lists

-- What `page_free` leaves: if no listed block has the page, nothing changed.
abbrev pub FreeResult : ℕ → (ℕ → List Ptr) → FreeListHeader → FreeListHeader → Type 0
FreeResult pfn lists s t =
    ((t ≡ s) × ((i : ℕ) → i ≤ max_page_order → IsAbsent s pfn (lists i))) ⊎ Released pfn s t

Merged-Released :
    {pfn pb : ℕ} {s t : FreeListHeader}
    → pb ≤ s.last_entry
    → (s.block pb).page ≡ pfn
    → Merged merge_depth (unmarked s pb) t
    → Released pfn s t
Merged-Released {pb} {s} made address (l, kept) =
    let u = unmarked s pb in
    record {
      pb = pb;
      made = made;
      address = address;
      free = ground (arith, kept.same pb made);
      others = λ a h ne. ground (arith, kept.same a h);
      grown = kept.grown;
      room = kept.room;
      in_order = l;
    }

-- In every state in which the lists of all orders are in order, no block has the last order, and 13
-- more block numbers fit the fuel and 32 bits, `page_free` ends without a fault. Either no listed
-- block has the page and nothing changed; or one block with this page is marked as free, every other
-- block that stood there before keeps its page, order and flags, at most 13 blocks were made, and
-- the lists of all orders are in order again.
pub page_free-safe :
    (fuel pfn : ℕ) {s : FreeListHeader} {lists : ℕ → List Ptr}
    → Rep (max_page_order + 1) s lists
    → lists max_page_order ≡ []
    → s.last_entry + merge_depth < fuel
    → s.last_entry + merge_depth < 2 ^ 32
    → Ends (λ _ t. FreeResult pfn lists s t) (page_free fuel pfn s)
unfolding page_free
page_free-safe fuel pfn {s} {lists} r none f g =
    after (find_block_by_pfn-Located fuel r (omega arith) pfn (omega arith)) λ q t (same, loc).
      elim (Bool-cases (q == null)) [
        | inl z ↦
            rw (z, same)
              (ends (inl (refl, λ i h. loc.absent (==→eq q null z) i (omega arith) (omega arith))))
        | inr z ↦
            let nq : q ≢ null = ==→ne q null z in
            let k = (s.block q).order in
            let empty : length (lists max_page_order) ≡ 0 = rw none refl in
            rw (z, same, mark_block_free-ok s q nq)
              (weaken
                (merge_buddy-IsSafe fuel merge_depth k (unmarked s q) lists
                  (record {
                    rep = Rep-unmarked q r;
                    below = omega (arith, loc.below nq);
                    one = omega (arith, empty);
                    empty = λ h. empty;
                  })
                  (omega arith) f g q nq (rw (eq→== q q refl) refl))
                λ _ u m. inr (Merged-Released (loc.made nq) (loc.page nq) m))
      ]
