-- ===== src/Workqueue/Chain.antt =====
-- The tasks that a queue holds, as the list of their addresses in order.
use hob_os.Base.{
  ◌≡◌, ◌≢◌, refl, sym, ap, ◌∙◌, List, [], ◌∷◌, ◌++◌, arith, IsFresh, IsDistinct, update, ne→==,
}
use hob_os.Task.{Ptr, null, Task, Kernel}

-- From `p` the `next` pointers lead through the tasks `xs` to NULL.
abbrev pub Linked : (Ptr → Task) → Ptr → List Ptr → Type 0
Linked h p [] = p ≡ null
Linked h p (x ∷ xs) = (p ≡ x) × (x ≢ null) × Linked h (h x).next xs

-- The queue `wq` holds the distinct tasks `xs`.
pub record Holds (s : Kernel) (wq : Ptr) (xs : List Ptr) : Type 0 where
  pub wq_ne : wq ≢ null
  pub chain : Linked s.task (s.wq wq).queue xs
  pub distinct : IsDistinct xs

-- `g` differs from `h` at most in the field `next`.
abbrev pub SameButNext : (Ptr → Task) → (Ptr → Task) → Type 0
SameButNext h g = (a : Ptr) → record (g a) { next = (h a).next } ≡ h a

-- A write to a task that is not on the chain leaves the chain.
pub Linked-update :
    (h : Ptr → Task) (a : Ptr) (v : Task) (p : Ptr) (xs : List Ptr)
    → IsFresh a xs
    → Linked h p xs
    → Linked (update h a v) p xs
Linked-update h a v p [] f l = l
Linked-update h a v p (x ∷ xs) f l =
    (l.0, l.1, rw (ne→== x a (λ e. f.0 (sym e))) (Linked-update h a v (h x).next xs f.1 l.2))

-- Behind the last task `t` is linked.
unfoldable pub last : Ptr → List Ptr → Ptr
last x [] = x
last x (y ∷ ys) = last y ys

pub ne-last : {a : Ptr} (x : Ptr) (xs : List Ptr) → IsFresh a (x ∷ xs) → a ≢ last x xs
unfolding last
ne-last x [] f = f.0
ne-last x (y ∷ ys) f = ne-last y ys f.1

pub last_ne_null :
    (h : Ptr → Task) (p : Ptr) (x : Ptr) (xs : List Ptr) → Linked h p (x ∷ xs) → last x xs ≢ null
unfolding last
last_ne_null h p x [] l = l.1
last_ne_null h p x (y ∷ ys) l = last_ne_null h (h x).next y ys l.2

-- The heap in which `t` follows the last task of `x ∷ xs`.
abbrev pub joined : (Ptr → Task) → Ptr → List Ptr → Ptr → Ptr → Task
joined h x xs t = update h (last x xs) (record (h (last x xs)) { next = t })

pub Linked-joined :
    (h : Ptr → Task) (t p x : Ptr) (xs : List Ptr)
    → Linked h p (x ∷ xs)
    → IsDistinct (x ∷ xs)
    → IsFresh t (x ∷ xs)
    → t ≢ null
    → (h t).next ≡ null
    → Linked (joined h x xs t) p (x ∷ xs ++ t ∷ [])
unfolding last
Linked-joined h t p x [] l d f nn e = ground arith
Linked-joined h t p x (y ∷ ys) l d f nn e = (
  l.0,
  l.1,
  rw (ne→== x (last y ys) (ne-last y ys d.0)) (Linked-joined h t (h x).next y ys l.2 d.1 f.1 nn e),
)

pub IsFresh-append :
    (a : Ptr) (xs ys : List Ptr) → IsFresh a xs → IsFresh a ys → IsFresh a (xs ++ ys)
IsFresh-append a [] ys f g = g
IsFresh-append a (x ∷ xs) ys f g = (f.0, IsFresh-append a xs ys f.1 g)

pub IsDistinct-snoc :
    (xs : List Ptr) (t : Ptr) → IsDistinct xs → IsFresh t xs → IsDistinct (xs ++ t ∷ [])
IsDistinct-snoc [] t d f = (tt, tt)
IsDistinct-snoc (x ∷ xs) t d f =
    (IsFresh-append x xs (t ∷ []) d.0 (λ e. f.0 (sym e), tt), IsDistinct-snoc xs t d.1 f.1)

-- `s'` differs from `s` at most in the queue `wq` and in the fields `next` of tasks.
pub record OnlyQueue (wq : Ptr) (s s' : Kernel) : Type 0 where
  pub tasks : SameButNext s.task s'.task
  pub others : (w : Ptr) → w ≢ wq → s'.wq w ≡ s.wq w
  pub ctxt : s'.ctxt ≡ s.ctxt
  pub word : s'.word ≡ s.word
  pub global_wqs : s'.global_wqs ≡ s.global_wqs
  pub pid_cntr : s'.pid_cntr ≡ s.pid_cntr
  pub cpu : s'.cpu ≡ s.cpu

pub OnlyQueue-refl : {wq : Ptr} {s : Kernel} → OnlyQueue wq s s
OnlyQueue-refl = record {
  tasks = λ p. refl;
  others = λ w n. refl;
  ctxt = refl;
  word = refl;
  global_wqs = refl;
  pid_cntr = refl;
  cpu = refl;
}

pub OnlyQueue-trans :
    {wq : Ptr} {s t u : Kernel} → OnlyQueue wq s t → OnlyQueue wq t u → OnlyQueue wq s u
OnlyQueue-trans a b = record {
  tasks = λ p. ground (arith, a.tasks p, b.tasks p);
  others = λ w n. b.others w n ∙ a.others w n;
  ctxt = b.ctxt ∙ a.ctxt;
  word = b.word ∙ a.word;
  global_wqs = b.global_wqs ∙ a.global_wqs;
  pid_cntr = b.pid_cntr ∙ a.pid_cntr;
  cpu = b.cpu ∙ a.cpu;
}

pub OnlyQueue-completed :
    {wq : Ptr} {s t : Kernel} (a : Ptr)
    → OnlyQueue wq s t
    → (t.task a).completed ≡ (s.task a).completed
OnlyQueue-completed a o = ap Task.completed (o.tasks a)
