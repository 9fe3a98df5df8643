-- ===== src/PageAlloc/Stair.antt =====
-- The lists behind splits of one block: a pair of the smallest order, and one block of each order
-- above it.
use Prim.Native.Nat.{bit_xor}
use native.Mathlib.Nat.{pow-suc, pow-le-pow_right, one-le-pow}
use hob_os.Base.{
  ℕ, zero, suc, ◌+◌, ◌-◌, ◌*◌, ◌^◌, ◌≤◌, ◌<◌, ◌≡◌, ◌≢◌, refl, sym, ap, subst, ◌∙◌, List, [], ◌∷◌,
  true, false, ◌&&◌, ◌==◌, update, ltb, if◌then◌else◌, ne→==, eq→==, arith, Bool-cases, inl, inr,
  ==→eq,
}
use hob_os.Base.Xor.{bit_xor-clear, bit_xor-set, bit_xor-ne}
use hob_os.PageAlloc.Block.{Ptr, FreeListHeader, max_page_order, page_size, block_is_used}
use hob_os.PageAlloc.Rep.{Rep, push}
use hob_os.PageAlloc.Lookup.{is_free}
use hob_os.PageAlloc.Unlink.{with_list}

pub same_flags :
    (s t : FreeListHeader) (a : Ptr)
    → (t.block a).flags ≡ (s.block a).flags
    → is_free s a ≡ true
    → is_free t a ≡ true
unfolding block_is_used
same_flags s t a e h = rw e h

pub no_flags : (t : FreeListHeader) (a : Ptr) → (t.block a).flags ≡ 0 → is_free t a ≡ true
unfolding block_is_used
no_flags t a e = rw e refl

pub Rep-ext :
    {b : ℕ} {s : FreeListHeader} {lists lists' : ℕ → List Ptr}
    → ((j : ℕ) → lists j ≡ lists' j)
    → Rep b s lists
    → Rep b s lists'
Rep-ext {b} {s} same r = subst (Rep b s) (λ i j. same j i) r

-- The block of `2 ^ k` pages at `A` is split down to the order `c`, with `w` its second half there:
-- `u d` is the first half of order `d`.
abbrev pub stair : ℕ → (ℕ → Ptr) → ℕ → Ptr → ℕ → List Ptr
stair k u c w j =
    if j == c
    then (if ltb c k then u c ∷ w ∷ [] else w ∷ [])
    else (if ltb c j && ltb j k then u j ∷ [] else [])

-- The address of the last block of order `d`
abbrev pub page_at : ℕ → ℕ → ℕ → ℕ
page_at k A d = A + page_size * (2 ^ k - 2 ^ d)

pub record Stair (k A : ℕ) (u : ℕ → Ptr) (c : ℕ) (w : Ptr) (s : FreeListHeader) : Type 0 where
  pub rep : Rep (max_page_order + 1) s (stair k u c w)
  pub below : c ≤ k
  pub small : k < max_page_order
  pub page : (s.block w).page ≡ page_at k A c
  pub free : is_free s w ≡ true
  pub pages : (d : ℕ) → c ≤ d → d < k → (s.block (u d)).page ≡ page_at k A (suc d)
  pub frees : (d : ℕ) → c ≤ d → d < k → is_free s (u d) ≡ true

-- The same, where the second half of order `c` may be in use
pub record Pieces (k A : ℕ) (u : ℕ → Ptr) (c : ℕ) (w : Ptr) (s : FreeListHeader) : Type 0 where
  pub rep : Rep (max_page_order + 1) s (stair k u c w)
  pub below : c ≤ k
  pub small : k < max_page_order
  pub page : (s.block w).page ≡ page_at k A c
  pub pages : (d : ℕ) → c ≤ d → d < k → (s.block (u d)).page ≡ page_at k A (suc d)
  pub frees : (d : ℕ) → c ≤ d → d < k → is_free s (u d) ≡ true

pub stair-pair : (k : ℕ) (u : ℕ → Ptr) (c : ℕ) (w : Ptr) → c < k → stair k u c w c ≡ u c ∷ w ∷ []
stair-pair k u c w h = let l : ltb c k ≡ true = ground arith in rw (eq→== c c refl, l) refl

pub stair-one :
    (k : ℕ) (u : ℕ → Ptr) (c : ℕ) (w : Ptr) (d : ℕ) → c < d → d < k → stair k u c w d ≡ u d ∷ []
stair-one k u c w d lo hi =
    let l : (ltb c d && ltb d k) ≡ true = ground arith in rw (ne→== d c (omega arith), l) refl

pub stair-none : (k : ℕ) (u : ℕ → Ptr) (c : ℕ) (w : Ptr) (d : ℕ) → d < c → stair k u c w d ≡ []
stair-none k u c w d h =
    let l : ltb c d ≡ false = ground arith in rw (ne→== d c (omega arith), l) refl

pub stair-last : (k : ℕ) (u : ℕ → Ptr) (w : Ptr) → stair k u k w k ≡ w ∷ []
stair-last k u w = let l : ltb k k ≡ false = ground arith in rw (eq→== k k refl, l) refl

-- The pair is taken away, and a block of the next order put in.
pub stair-up :
    (k : ℕ) (u : ℕ → Ptr) (c : ℕ) (w w' : Ptr) (xs : List Ptr)
    → c < k
    → (j : ℕ)
    → push (with_list (with_list (stair k u c w) c xs) c []) (suc c) w' j ≡ stair k u (suc c) w' j
stair-up k u c w w' xs h j = elim (Bool-cases (j == suc c)) [
  | inl e ↦
      let at : j ≡ suc c = ==→eq j (suc c) e in
      let up : (j == c) ≡ false = ne→== j c (omega arith) in
      let above : ltb c j ≡ true = ground arith in
      rw (e, up, above, at)
        (elim (Bool-cases (ltb (suc c) k)) [ inl l ↦ rw l refl | inr l ↦ rw l refl ])
  | inr e ↦ rw e (elim (Bool-cases (j == c)) [
    | inl e' ↦ let under : ltb (suc c) j ≡ false = ground arith in rw (e', under) refl
    | inr e' ↦ let same : ltb c j ≡ ltb (suc c) j = ground arith in rw (e', same) refl
  ])
]

pow_split : (c : ℕ) → page_size * 2 ^ c ≡ 2 ^ (c + 12)
pow_split zero = refl
pow_split (suc c) =
    let e : suc c + 12 ≡ suc (c + 12) = omega arith in
    rw (e, pow-suc 2 c, pow-suc 2 (c + 12)) (omega (arith, pow_split c))

-- The greater power is a multiple of the smaller one.
pow_multiple : (c e : ℕ) → (f : ℕ) × (2 ^ (c + e) ≡ suc f * 2 ^ c)
pow_multiple c zero = (0, let z : c + 0 ≡ c = omega arith in rw z (omega arith))
pow_multiple c (suc e) =
    let (f, h) = pow_multiple c e in
    let z : c + suc e ≡ suc (c + e) = omega arith in
    (f + f + 1, rw (z, pow-suc 2 (c + e), h) (grind arith))

-- A first half lies below its second half.
pub page_at-lt : (k A c : ℕ) → c < k → page_at k A (suc c) < page_at k A c
page_at-lt k A c h =
    let le : 2 ^ suc c ≤ 2 ^ k = pow-le-pow_right (omega arith) h in
    omega (arith, le, pow-suc 2 c, one-le-pow c 2 (omega arith))

double : (f x : ℕ) → suc f * x - x ≡ f * x
double f x = grind arith

-- Pages as multiples of the smallest block's size
multiple_up :
    (f q y : ℕ)
    → q * (page_size * (suc f * y)) + page_size * (f * y) ≡ (q * suc f + f) * (page_size * y)
multiple_up f q y = grind arith

-- The block `w` of order `c + 1` is taken away, and two blocks of order `c` are put in.
pub stair-down :
    (k : ℕ) (u : ℕ → Ptr) (c : ℕ) (w x y : Ptr)
    → c < k
    → (j : ℕ)
    → push
        (push
          (with_list (stair k u (suc c) w) (suc c) (if ltb (suc c) k then u (suc c) ∷ [] else []))
          c
          x)
        c
        y
        j
      ≡ stair k (update u c x) c y j
stair-down k u c w x y h j = elim (Bool-cases (j == c)) [
  | inl e ↦
      let at : j ≡ c = ==→eq j c e in
      let up : (j == suc c) ≡ false = ne→== j (suc c) (omega arith) in
      let under : ltb (suc c) j ≡ false = ground arith in
      let lower : ltb c k ≡ true = ground arith in rw (e, up, under, lower, eq→== c c refl) refl
  | inr e ↦ rw e (elim (Bool-cases (j == suc c)) [
    | inl e' ↦
        let at : j ≡ suc c = ==→eq j (suc c) e' in
        let above : ltb c j ≡ true = ground arith in rw (e', above, at) refl
    | inr e' ↦ let same : ltb (suc c) j ≡ ltb c j = ground arith in rw (e', same) refl
  ])
]

module _ (k A q : ℕ) (aligned : A ≡ q * (page_size * 2 ^ k)) where
  -- Both halves as multiples of their size
  halves :
      (c : ℕ)
      → c < k
      → (t : ℕ) × (page_at k A (suc c) ≡ t * 2 ^ suc (c + 12))
        × (page_at k A c ≡ t * 2 ^ suc (c + 12) + 2 ^ (c + 12))
  halves c h =
      let (f, e) = pow_multiple (suc c) (k - suc c) in
      let at : suc c + (k - suc c) ≡ k = omega arith in
      let whole : 2 ^ k ≡ suc f * 2 ^ suc c = ap (λ x. 2 ^ x) (sym at) ∙ e in
      let t = q * suc f + f in
      let power : page_size * 2 ^ suc c ≡ 2 ^ suc (c + 12) =
        omega (arith, pow_split c, pow-suc 2 c, pow-suc 2 (c + 12)) in
      let up : page_at k A (suc c) ≡ t * 2 ^ suc (c + 12) =
        rw (aligned, whole, double f (2 ^ suc c))
          (multiple_up f q (2 ^ suc c) ∙ ap (λ x. t * x) power) in
      (t, up, omega (arith, up, whole, pow-suc 2 c, pow_split c))

  -- The buddy of a second half is the first half, and the other way round.
  pub buddy-down :
      (c : ℕ) → c < k → bit_xor (page_size * 2 ^ c) (page_at k A c) ≡ page_at k A (suc c)
  buddy-down c h =
      let (t, up, this) = halves c h in rw (pow_split c, this, up) (bit_xor-clear (c + 12) t)

  pub buddy-up : (c : ℕ) → c < k → bit_xor (page_size * 2 ^ c) (page_at k A (suc c)) ≡ page_at k A c
  buddy-up c h =
      let (t, up, this) = halves c h in rw (pow_split c, this, up) (bit_xor-set (c + 12) t)

  pub buddy-other : (c p : ℕ) → bit_xor (page_size * 2 ^ c) p ≢ p
  buddy-other c p e = bit_xor-ne (c + 12) p (subst (λ x. bit_xor x p ≡ p) (pow_split c) e)
