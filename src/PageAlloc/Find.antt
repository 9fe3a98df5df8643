-- ===== src/PageAlloc/Find.antt =====
-- `find_pfn_in_order`, `find_block_by_pfn` and `get_block_buddy`: the search for a page in the lists.
use hob_os.Base.{
  ℕ, zero, suc, ◌+◌, ◌≤◌, ◌<◌, ◌≡◌, ◌≢◌, refl, ◌∙◌, List, [], ◌∷◌, ◌==◌, length, ne→==, arith,
  Bool-cases, inl, inr, ==→eq, ==→ne,
}
use native.Mathlib.Decide.{dec_lt}
use hob_os.Base.Run.{ok, Ends, ends, after, weaken}
use hob_os.Base.Chain.{All, Linked}
use hob_os.PageAlloc.Block.{Ptr, null, FreeListHeader, get_buddy_pfn, max_page_order}
use hob_os.PageAlloc.Alloc.{
  find_pfn_loop, find_pfn_in_order, find_block_loop, find_block_by_pfn, get_block_buddy,
}
use hob_os.PageAlloc.Rep.{nexts, IsOf, Rep, load-ok, get_list-ok}

-- No block of the list has the page `pfn`.
abbrev pub IsAbsent : FreeListHeader → ℕ → List Ptr → Type 0
IsAbsent s pfn xs = All (λ a. (s.block a).page ≢ pfn) xs

-- The result `pb` of a search for `pfn` among the blocks `xs`, of order `k`
record Hit (k pfn : ℕ) (xs : List Ptr) (s : FreeListHeader) (pb : Ptr) : Type 0 where
  of_order : pb ≢ null → IsOf s k pb
  page : pb ≢ null → (s.block pb).page ≡ pfn
  absent : pb ≡ null → IsAbsent s pfn xs

find_pfn_loop-Hit :
    (n k pfn : ℕ) (s : FreeListHeader) (p : Ptr) (xs : List Ptr)
    → Linked (nexts s) p xs
    → All (IsOf s k) xs
    → length xs < n
    → Ends (λ pb t. (t ≡ s) × Hit k pfn xs s pb) (find_pfn_loop n pfn p s)
unfolding find_pfn_loop
find_pfn_loop-Hit zero k pfn s p xs l m f = absurd (omega arith)
find_pfn_loop-Hit (suc n) k pfn s p [] l m f = rw l (
    ends (
      refl,
      record { of_order = λ ne. absurd (ne refl); page = λ ne. absurd (ne refl); absent = λ z. tt },
    ))
find_pfn_loop-Hit (suc n) k pfn s p (x ∷ xs) l m f =
    rw (l.0, ne→== x null l.1, load-ok s x l.1)
      (elim (Bool-cases ((s.block x).page == pfn)) [
        | inl e ↦ rw e (
            ends (
              refl,
              record {
                of_order = λ ne. m.0;
                page = λ ne. ==→eq (s.block x).page pfn e;
                absent = λ z. absurd (l.1 z);
              },
            ))
        | inr e ↦ rw e (
            weaken (find_pfn_loop-Hit n k pfn s (nexts s x) xs l.2 m.1 (omega arith))
              λ pb t (same, hit). (
                same,
                record {
                  of_order = hit.of_order;
                  page = hit.page;
                  absent = λ z. (==→ne (s.block x).page pfn e, hit.absent z);
                },
              ))
      ])

pub find_pfn_loop-absent :
    (n pfn : ℕ) (s : FreeListHeader) (p : Ptr) (xs : List Ptr)
    → Linked (nexts s) p xs
    → IsAbsent s pfn xs
    → length xs < n
    → find_pfn_loop n pfn p s ≡ ok null s
unfolding find_pfn_loop
find_pfn_loop-absent zero pfn s p xs l a f = absurd (omega arith)
find_pfn_loop-absent (suc n) pfn s p [] l a f = rw l
find_pfn_loop-absent (suc n) pfn s p (x ∷ xs) l a f =
    rw (l.0, ne→== x null l.1, load-ok s x l.1, ne→== (s.block x).page pfn a.0)
      (find_pfn_loop-absent n pfn s (nexts s x) xs l.2 a.1 (omega arith))

module _ (fuel : ℕ) {b : ℕ} {s : FreeListHeader} {lists : ℕ → List Ptr} (r : Rep b s lists)
    (f : s.last_entry < fuel) where
  find_pfn_in_order-Hit :
      (pfn k : ℕ)
      → k < b
      → Ends (λ pb t. (t ≡ s) × Hit k pfn (lists k) s pb) (find_pfn_in_order fuel pfn k s)
  unfolding find_pfn_in_order
  find_pfn_in_order-Hit pfn k kb = rw (get_list-ok s k (omega (arith, r.orders))) (
      find_pfn_loop-Hit fuel k pfn s (s.list k).first (lists k) (r.chain k kb) (r.members k kb)
        (omega (arith, r.short k kb)))

  -- The buddy that `get_block_buddy` returns is a block of the same order.
  pub get_block_buddy-IsOf :
      (pb k : Ptr)
      → pb ≢ null
      → (s.block pb).order ≡ k
      → k < b
      → Ends (λ q t. (t ≡ s) × (q ≢ null → IsOf s k q)) (get_block_buddy fuel pb s)
  unfolding get_block_buddy
  get_block_buddy-IsOf pb k ne o kb = rw (load-ok s pb ne) (
      weaken
        (find_pfn_in_order-Hit (get_buddy_pfn (s.block pb)) (s.block pb).order (omega (arith, o)))
        λ q t (same, hit). (same, λ h. ((hit.of_order h).0 ∙ o, (hit.of_order h).1)))

  -- The result of a search from the order `j` on
  pub record Located (pfn j n : ℕ) (pb : Ptr) : Type 0 where
    pub below : pb ≢ null → (s.block pb).order < j + n
    pub made : pb ≢ null → pb ≤ s.last_entry
    pub page : pb ≢ null → (s.block pb).page ≡ pfn
    pub absent : pb ≡ null → (i : ℕ) → j ≤ i → i < j + n → IsAbsent s pfn (lists i)

  find_block_loop-Located :
      (n pfn j : ℕ)
      → j + n ≤ b
      → Ends (λ pb t. (t ≡ s) × Located pfn j n pb) (find_block_loop fuel n pfn j s)
  unfolding find_block_loop
  find_block_loop-Located zero pfn j h = ends (
    refl,
    record {
      below = λ ne. absurd (ne refl);
      made = λ ne. absurd (ne refl);
      page = λ ne. absurd (ne refl);
      absent = λ z i lo hi. absurd (omega arith);
    },
  )
  find_block_loop-Located (suc n) pfn j h =
      after (find_pfn_in_order-Hit pfn j (omega arith)) λ q t (same, hit).
        elim (Bool-cases (q == null)) [
          | inl z ↦
              rw (z, same)
                (weaken (find_block_loop-Located n pfn (j + 1) (omega arith)) λ pb u (same', loc). (
                  same',
                  record {
                    below = λ ne. omega (arith, loc.below ne);
                    made = loc.made;
                    page = loc.page;
                    absent = λ z' i lo hi. elim (dec_lt j i) [
                      | yes l ↦ loc.absent z' i (omega arith) (omega arith)
                      | no l ↦ let e : i ≡ j = omega arith in rw e (hit.absent (==→eq q null z))
                    ];
                  },
                ))
          | inr z ↦
              rw (z, same)
                (ends (
                  refl,
                  record {
                    below = λ ne. omega (arith, (hit.of_order ne).0);
                    made = λ ne. (hit.of_order ne).1;
                    page = hit.page;
                    absent = λ z'. absurd (==→ne q null z z');
                  },
                ))
        ]

  -- A block that `find_block_by_pfn` returns has the page; if it returns NULL, no listed block has.
  pub find_block_by_pfn-Located :
      (pfn : ℕ)
      → max_page_order + 1 ≤ b
      → Ends
          (λ pb t. (t ≡ s) × Located pfn 0 (max_page_order + 1) pb)
          (find_block_by_pfn fuel pfn s)
  unfolding find_block_by_pfn
  find_block_by_pfn-Located pfn h = find_block_loop-Located (max_page_order + 1) pfn 0 h
