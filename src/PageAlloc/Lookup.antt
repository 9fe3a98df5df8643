-- ===== src/PageAlloc/Lookup.antt =====
-- `list_has_free_block`, `get_nth_block` and `get_next_free_block` read off the list of an order.
use hob_os.Base.{
  ℕ, zero, suc, ◌≤◌, ◌<◌, ◌≡◌, ◌≢◌, refl, ap, List, [], ◌∷◌, Bool, true, false, not, ◌&&◌, ◌||◌,
  ◌==◌, if◌then◌else◌, length, ne→==, leb-gt, arith, Bool-cases, inl, inr,
}
use hob_os.Base.Run.{ok, pure, Ends, ends}
use hob_os.Base.Chain.{All, Linked, Linked-ne}
use hob_os.PageAlloc.Block.{
  Ptr, null, FreeListHeader, block_is_free, has_free_loop, page_block_exists, list_has_free_block,
  nth_loop, get_nth_block, next_free_loop, get_next_free_block, max_page_order,
}
use hob_os.PageAlloc.Rep.{nexts, IsOf, Rep, load-ok, get_list-ok}

abbrev pub is_free : FreeListHeader → Ptr → Bool
is_free s a = block_is_free (s.block a)

-- Some block of the list is free.
unfoldable pub any_free : FreeListHeader → List Ptr → Bool
any_free s [] = false
any_free s (x ∷ xs) = is_free s x || any_free s xs

-- The block at an index, or NULL.
unfoldable pub nth : List Ptr → ℕ → Ptr
nth [] i = null
nth (x ∷ xs) zero = x
nth (x ∷ xs) (suc i) = nth xs i

-- The last free block among the first `n`, or NULL.
unfoldable pub last_free : FreeListHeader → List Ptr → ℕ → Ptr
last_free s xs zero = null
last_free s xs (suc n) = if is_free s (nth xs n) then nth xs n else last_free s xs n

has_free_loop-any_free :
    (s : FreeListHeader) (p : Ptr) (xs : List Ptr)
    → Linked (nexts s) p xs
    → has_free_loop (length xs) p s ≡ ok (any_free s xs) s
unfolding has_free_loop any_free
has_free_loop-any_free s p [] l = refl
has_free_loop-any_free s p (x ∷ xs) l =
    rw (l.0, ne→== x null l.1, load-ok s x l.1)
      (ground (arith, has_free_loop-any_free s (nexts s x) xs))

if_nonempty :
    (s : FreeListHeader) (xs : List Ptr) (p : Ptr)
    → Linked (nexts s) p xs
    → (if not (length xs == 0) then has_free_loop (length xs) p else pure false) s
      ≡ ok (any_free s xs) s
unfolding any_free
if_nonempty s [] p l = refl
if_nonempty s (x ∷ xs) p l =
    rw (ne→== (suc (length xs)) 0 (omega arith)) (has_free_loop-any_free s p (x ∷ xs) l)

nth_loop-nth :
    (s : FreeListHeader) (p : Ptr) (xs : List Ptr) (i : ℕ)
    → Linked (nexts s) p xs
    → i < length xs
    → nth_loop i p s ≡ ok (nth xs i) s
unfolding nth_loop nth
nth_loop-nth s p [] i l h = absurd (omega arith)
nth_loop-nth s p (x ∷ xs) zero l h = ap (λ q. ok q s) l.0
nth_loop-nth s p (x ∷ xs) (suc i) l h =
    rw (l.0, load-ok s x l.1) (nth_loop-nth s (nexts s x) xs i l.2 (omega arith))

pub All-nth : (P : ℕ → Type 0) (xs : List Ptr) (i : ℕ) → All P xs → i < length xs → P (nth xs i)
unfolding nth
All-nth P [] i a h = absurd (omega arith)
All-nth P (x ∷ xs) zero a h = a.0
All-nth P (x ∷ xs) (suc i) a h = All-nth P xs i a.1 (omega arith)

module _ {b : ℕ} {s : FreeListHeader} {lists : ℕ → List Ptr} (r : Rep b s lists) (k : ℕ)
    (kb : k < b) where
  abbrev small : k ≤ max_page_order
  small = omega (arith, r.orders)

  abbrev xs : List Ptr
  xs = lists k

  pub list_has_free-any_free : list_has_free_block k s ≡ ok (any_free s xs) s
  unfolding list_has_free_block page_block_exists
  list_has_free-any_free =
      rw (get_list-ok s k small, get_list-ok s k small, r.counted k kb)
        (if_nonempty s xs (s.list k).first (r.chain k kb))

  pub get_nth-nth : (i : ℕ) → i < length xs → get_nth_block k i s ≡ ok (nth xs i) s
  unfolding get_nth_block
  get_nth-nth i h =
      rw (get_list-ok s k small, r.counted k kb, leb-gt (length xs) i h)
        (nth_loop-nth s (s.list k).first xs i (r.chain k kb) h)

  pub nth-ne : (i : ℕ) → i < length xs → nth xs i ≢ null
  nth-ne i h =
      All-nth (λ a. a ≢ null) xs i (Linked-ne (nexts s) (s.list k).first xs (r.chain k kb)) h

  next_free_loop-last_free :
      (n : ℕ) → n ≤ length xs → next_free_loop k n s ≡ ok (last_free s xs n) s
  unfolding next_free_loop last_free
  next_free_loop-last_free zero h = refl
  next_free_loop-last_free (suc i) h =
      rw (get_nth-nth i h, ne→== (nth xs i) null (nth-ne i h), load-ok s (nth xs i) (nth-ne i h))
        (elim (Bool-cases (is_free s (nth xs i))) [
          | inl e ↦ rw e
          | inr e ↦ rw e (next_free_loop-last_free i (omega arith))
        ])

  -- `get_next_free_block` prefers the newest block of all.
  pub get_next_free-eq :
      get_next_free_block k s
      ≡ ok
          (if ((s.block s.last_entry).order == k) && is_free s s.last_entry
            then s.last_entry
            else last_free s xs (length xs))
          s
  unfolding get_next_free_block
  get_next_free-eq =
      rw (get_list-ok s k small, load-ok s s.last_entry r.started, r.counted k kb)
        (elim (Bool-cases (((s.block s.last_entry).order == k) && is_free s s.last_entry)) [
          | inl e ↦ rw e
          | inr e ↦ rw e (next_free_loop-last_free (length xs) (omega arith))
        ])

  last_free-IsOf :
      (n : ℕ)
      → n ≤ length xs
      → last_free s xs n ≢ null
      → IsOf s k (last_free s xs n) × (is_free s (last_free s xs n) ≡ true)
  unfolding last_free
  last_free-IsOf zero h = λ ne. absurd (ne refl)
  last_free-IsOf (suc n) h = elim (Bool-cases (is_free s (nth xs n))) [
    | inl e ↦ rw e (λ ne. (All-nth (IsOf s k) xs n (r.members k kb) h, e))
    | inr e ↦ rw e (last_free-IsOf n (omega arith))
  ]

  -- The block that it returns is free, of the order asked for, and one of those ever made.
  pub get_next_free-IsOf :
      Ends
        (λ pb t. (t ≡ s) × (pb ≢ null → IsOf s k pb × (is_free s pb ≡ true)))
        (get_next_free_block k s)
  get_next_free-IsOf =
      rw get_next_free-eq
        (elim (Bool-cases (((s.block s.last_entry).order == k) && is_free s s.last_entry)) [
          | inl e ↦ rw e (ends (refl, λ ne. ground arith))
          | inr e ↦ rw e (ends (refl, last_free-IsOf (length xs) (omega arith)))
        ])
