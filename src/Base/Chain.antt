-- ===== src/Base/Chain.antt =====
-- Linked lists in memory: `nx` gives the successor of each address, and 0 is NULL.
use Prim.Native.Nat.{ℕ}
use mathlib.Core.Path.{◌≡◌, sym, subst}
use mathlib.Core.Logic.{◌≢◌}
use mathlib.Core.List.{List, [], ◌∷◌, ◌++◌}
use hob_os.Base.Lists.{IsFresh, IsDistinct}

abbrev pub All : (ℕ → Type 0) → List ℕ → Type 0
All P [] = Unit
All P (x ∷ xs) = P x × All P xs

pub All-map : {P Q : ℕ → Type 0} (xs : List ℕ) → ((a : ℕ) → P a → Q a) → All P xs → All Q xs
All-map [] f h = tt
All-map (x ∷ xs) f h = (f x h.0, All-map xs f h.1)

pub All-any : {P : ℕ → Type 0} (xs : List ℕ) → ((a : ℕ) → P a) → All P xs
All-any [] f = tt
All-any (x ∷ xs) f = (f x, All-any xs f)

pub All-append : (P : ℕ → Type 0) (xs ys : List ℕ) → All P xs → All P ys → All P (xs ++ ys)
All-append P [] ys f g = g
All-append P (x ∷ xs) ys f g = (f.0, All-append P xs ys f.1 g)

-- What no member satisfies is fresh.
pub All-IsFresh : (P : ℕ → Type 0) (a : ℕ) (xs : List ℕ) → ¬ P a → All P xs → IsFresh a xs
All-IsFresh P a [] n h = tt
All-IsFresh P a (x ∷ xs) n h = (λ e. n (subst P (sym e) h.0), All-IsFresh P a xs n h.1)

pub All-ne : (a : ℕ) (xs : List ℕ) → IsFresh a xs → All (λ x. x ≢ a) xs
All-ne a [] f = tt
All-ne a (x ∷ xs) f = (λ e. f.0 (sym e), All-ne a xs f.1)

pub IsFresh-append : (a : ℕ) (xs ys : List ℕ) → IsFresh a xs → IsFresh a ys → IsFresh a (xs ++ ys)
IsFresh-append a [] ys f g = g
IsFresh-append a (x ∷ xs) ys f g = (f.0, IsFresh-append a xs ys f.1 g)

pub IsDistinct-snoc :
    (xs : List ℕ) (t : ℕ) → IsDistinct xs → IsFresh t xs → IsDistinct (xs ++ t ∷ [])
IsDistinct-snoc [] t d f = (tt, tt)
IsDistinct-snoc (x ∷ xs) t d f =
    (IsFresh-append x xs (t ∷ []) d.0 (λ e. f.0 (sym e), tt), IsDistinct-snoc xs t d.1 f.1)

-- From `p` the successors lead through `xs` to NULL.
abbrev pub Linked : (ℕ → ℕ) → ℕ → List ℕ → Type 0
Linked nx p [] = p ≡ 0
Linked nx p (x ∷ xs) = (p ≡ x) × (x ≢ 0) × Linked nx (nx x) xs

pub Linked-same :
    (nx nx' : ℕ → ℕ) (p : ℕ) (xs : List ℕ)
    → All (λ a. nx' a ≡ nx a) xs
    → Linked nx p xs
    → Linked nx' p xs
Linked-same nx nx' p [] h l = l
Linked-same nx nx' p (x ∷ xs) h l = (l.0, l.1, rw h.0 (Linked-same nx nx' (nx x) xs h.1 l.2))

unfoldable pub last : ℕ → List ℕ → ℕ
last x [] = x
last x (y ∷ ys) = last y ys

pub ne-last : {a : ℕ} (x : ℕ) (xs : List ℕ) → IsFresh a (x ∷ xs) → a ≢ last x xs
unfolding last
ne-last x [] f = f.0
ne-last x (y ∷ ys) f = ne-last y ys f.1

pub All-last : (P : ℕ → Type 0) (x : ℕ) (xs : List ℕ) → All P (x ∷ xs) → P (last x xs)
unfolding last
All-last P x [] f = f.0
All-last P x (y ∷ ys) f = All-last P y ys f.1

pub Linked-ne : (nx : ℕ → ℕ) (p : ℕ) (xs : List ℕ) → Linked nx p xs → All (λ a. a ≢ 0) xs
Linked-ne nx p [] l = tt
Linked-ne nx p (x ∷ xs) l = (l.1, Linked-ne nx (nx x) xs l.2)

-- `t` is linked behind the last element.
pub Linked-snoc :
    (nx nx' : ℕ → ℕ) (t p x : ℕ) (xs : List ℕ)
    → Linked nx p (x ∷ xs)
    → IsDistinct (x ∷ xs)
    → IsFresh t (x ∷ xs)
    → t ≢ 0
    → nx' t ≡ 0
    → nx' (last x xs) ≡ t
    → ((a : ℕ) → a ≢ last x xs → a ≢ t → nx' a ≡ nx a)
    → Linked nx' p (x ∷ xs ++ t ∷ [])
unfolding last
Linked-snoc nx nx' t p x [] l d f nt et el h = (l.0, l.1, (el, nt, et))
Linked-snoc nx nx' t p x (y ∷ ys) l d f nt et el h = (
  l.0,
  l.1,
  rw (h x (ne-last y ys d.0) (λ e. f.0 (sym e)))
      (Linked-snoc nx nx' t (nx x) y ys l.2 d.1 f.1 nt et el h),
)

-- The list ends before its last element `y`.
pub Linked-cut :
    (nx nx' : ℕ → ℕ) (p x : ℕ) (xs : List ℕ) (y : ℕ)
    → Linked nx p (x ∷ xs ++ y ∷ [])
    → IsDistinct (x ∷ xs)
    → nx' (last x xs) ≡ 0
    → ((a : ℕ) → a ≢ last x xs → nx' a ≡ nx a)
    → Linked nx' p (x ∷ xs)
unfolding last
Linked-cut nx nx' p x [] y l d e h = (l.0, l.1, e)
Linked-cut nx nx' p x (z ∷ zs) y l d e h =
    (l.0, l.1, rw (h x (ne-last z zs d.0)) (Linked-cut nx nx' (nx x) z zs y l.2 d.1 e h))

pub All-zip :
    {P Q R : ℕ → Type 0} (xs : List ℕ)
    → ((a : ℕ) → P a → Q a → R a)
    → All P xs
    → All Q xs
    → All R xs
All-zip [] f p q = tt
All-zip (x ∷ xs) f p q = (f x p.0 q.0, All-zip xs f p.1 q.1)
