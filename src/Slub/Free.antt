-- ===== src/Slub/Free.antt =====
-- Release of an object of a task.
use hob_os.Base.{ℕ, ◌≡◌, ◌≢◌, ◌∙◌, refl, sym, List, [], ◌∷◌, eq→==, ne→==, IsFresh, IsDistinct}
use hob_os.Base.Run.{Ends, ends}
use hob_os.Base.Chain.{All, Linked, Linked-same}
use hob_os.Task.{Ptr, null}
use hob_os.Task.Access.{load-ok, load_ctxt-ok}
use hob_os.Slub.{Slab, kmem_extract_obj_child}
use hob_os.Slub.Cache.{kmem_extract_obj, kmem_get_obj_parent}
use hob_os.Slub.Ready.{used, load_obj-ok, set_next-ok}
use hob_os.Slub.Take.{nexts, tie, tie-this, tie-other}

-- What holds of every address but two holds of a list without them.
both :
    {P : ℕ → Type 0} (x y : ℕ) (zs : List ℕ)
    → ((a : ℕ) → a ≢ x → a ≢ y → P a)
    → IsFresh x zs
    → IsFresh y zs
    → All P zs
both x y [] h f g = tt
both x y (z ∷ zs) h f g = (h z (λ e. f.0 (sym e)) (λ e. g.0 (sym e)), both x y zs h f.1 g.1)

-- The task `t` with the context `cx` uses the object `x`, then `y`, then others. `kmem_extract_obj`
-- with the address of `x` ends, but it is `y` that it takes off the list and returns.
pub kmem_extract_obj-second :
    (core k : ℕ) (s : Slab) (t cx x y : Ptr) (zs : List Ptr)
    → t ≢ null
    → (s.kernel.task t).ctxt ≡ cx
    → cx ≢ null
    → Linked (nexts s) (used s cx) (x ∷ y ∷ zs)
    → IsDistinct (x ∷ y ∷ zs)
    → (s.obj x).addr ≢ null
    → Ends
        (λ r s'. (r ≡ y) × Linked (nexts s') (used s' cx) (x ∷ zs))
        (kmem_extract_obj core k t (s.obj x).addr s)
unfolding kmem_extract_obj kmem_get_obj_parent kmem_extract_obj_child
kmem_extract_obj-second core k s t cx x y zs tn c cn l d an =
    let s1 : Slab = tie s x (nexts s y) in
    let s2 : Slab = tie s1 y null in
    let yn : y ≢ null = l.2.1 in
    let same : (a : ℕ) → a ≢ x → a ≢ y → nexts s2 a ≡ nexts s a =
      λ a f g. tie-other s1 y null a g ∙ tie-other s x (nexts s y) a f in
    let to_z : nexts s2 x ≡ nexts s y = tie-other s1 y null x d.0.0 ∙ tie-this s x (nexts s y) in
    rw
      (
        load-ok s.kernel t tn,
        c,
        load_ctxt-ok s.kernel cx cn,
        l.0,
        ne→== (s.obj x).addr null an,
        ne→== x null l.1,
        load_obj-ok s x l.1,
        eq→== (s.obj x).addr (s.obj x).addr refl,
        ne→== x null l.1,
        load_obj-ok s x l.1,
        l.2.0,
        ne→== y null yn,
        load_obj-ok s y yn,
        set_next-ok s x (nexts s y) l.1,
        set_next-ok s1 y null yn,
      )
      (ends {s = s2} (
        refl,
        (
          l.0,
          l.1,
          rw to_z (
              Linked-same (nexts s) (nexts s2) (nexts s y) zs (both x y zs same d.0.1 d.1.0) l.2.2),
        ),
      ))
