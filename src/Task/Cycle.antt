-- ===== src/Task/Cycle.antt =====
-- `kthread_create` and `kthread_queue` where another task is queued behind the running one.
use hob_os.Base.{
  ℕ, zero, suc, ◌+◌, ◌<◌, ◌≡◌, ◌≢◌, refl, sym, ap, ◌∙◌, ◌⊎◌, inl, inr, List, [], ◌∷◌, length,
  IsFresh, IsDistinct, ne→==, eq→==, arith,
}
use hob_os.Base.Run.{ok, out_of_fuel, ◌>>=◌, Ends, ends, after}
use hob_os.Task.{Ptr, null, Task, Kernel}
use hob_os.Task.Access.{load-ok, store-ok, load_queue-ok, load_ctxt-ok, store_ctxt-ok}
use hob_os.Task.Threads.{
  clone, clear_stack, copy_stack, get_curr_task, kthread_create, kthread_queue,
}
use hob_os.Workqueue.{wq_get_curr, end_loop, get_workqueue_end}
use hob_os.Workqueue.Chain.{Linked, Holds, last, ne-last, joined}
use hob_os.Workqueue.Ops.{wq_push-cons}

abbrev In : Ptr → List Ptr → Type 0
In a [] = ⊥
In a (x ∷ xs) = (a ≡ x) ⊎ In a xs

-- The pointers that the walk from a task of `L` reads are tasks of `L`.
abbrev IsClosed : (Ptr → Task) → List Ptr → Type 0
IsClosed h L = (a : Ptr) → In a L → ((h a).next ≢ null) × In (h a).next L

end_loop-endless :
    (k : ℕ) (s : Kernel) (L : List Ptr) (a : Ptr)
    → IsClosed s.task L
    → In a L
    → a ≢ null
    → end_loop k a s ≡ out_of_fuel
unfolding end_loop
end_loop-endless zero s L a c i ne = refl
end_loop-endless (suc k) s L a c i ne =
    rw (load-ok s a ne, ne→== (s.task a).next null (c a i).0)
      (end_loop-endless k s L (s.task a).next c (c a i).1 (c a i).0)

-- The tasks `xs` are linked up to `stop`.
abbrev LinkedTo : (Ptr → Task) → Ptr → Ptr → List Ptr → Type 0
LinkedTo h stop p [] = p ≡ stop
LinkedTo h stop p (x ∷ xs) = (p ≡ x) × (x ≢ null) × LinkedTo h stop (h x).next xs

LinkedTo-joined :
    (h : Ptr → Task) (t p x : Ptr) (xs : List Ptr)
    → Linked h p (x ∷ xs)
    → IsDistinct (x ∷ xs)
    → LinkedTo (joined h x xs t) t p (x ∷ xs)
unfolding last
LinkedTo-joined h t p x [] l d = ground arith
LinkedTo-joined h t p x (y ∷ ys) l d = (
  l.0,
  l.1,
  rw (ne→== x (last y ys) (ne-last y ys d.0)) (LinkedTo-joined h t (h x).next y ys l.2 d.1),
)

LinkedTo-next :
    (h : Ptr → Task) (t p x : Ptr) (xs : List Ptr)
    → t ≢ null
    → LinkedTo h t p (x ∷ xs)
    → (a : Ptr) → In a (x ∷ xs)
    → ((h a).next ≢ null) × In (h a).next (t ∷ x ∷ xs)
LinkedTo-next h t p x [] nt l a (inl e) = rw e (rw l.2 nt, inl l.2)
LinkedTo-next h t p x [] nt l a (inr i) = elim i [ ]
LinkedTo-next h t p x (y ∷ ys) nt l a (inl e) = rw e (rw l.2.0 l.2.1, inr (inr (inl l.2.0)))
LinkedTo-next h t p x (y ∷ ys) nt l a (inr i) = skip (LinkedTo-next h t (h x).next y ys nt l.2 a i)
  where
    skip :
        ((h a).next ≢ null) × In (h a).next (t ∷ y ∷ ys)
        → ((h a).next ≢ null) × In (h a).next (t ∷ x ∷ y ∷ ys)
    skip (ne, inl e) = (ne, inl e)
    skip (ne, inr j) = (ne, inr (inr j))

-- What `kthread_create` leaves of the fields that the queues use.
record Created (new : Ptr) (next : Ptr) (s : Kernel) (r : Ptr) (t : Kernel) : Type 0 where
  result : r ≡ new
  copied : (t.task new).next ≡ next
  others : (a : Ptr) → a ≢ new → t.task a ≡ s.task a
  wq : t.wq ≡ s.wq
  global_wqs : t.global_wqs ≡ s.global_wqs

clone-Created :
    (s : Kernel) (new new_ctxt x : Ptr)
    → new ≢ null
    → new_ctxt ≢ null
    → x ≢ null
    → x ≢ new
    → Ends (Created new (s.task x).next s) (clone new new_ctxt x s)
unfolding clone clear_stack copy_stack
clone-Created s new new_ctxt x nn nc nx ne =
    rw
      (
        ne→== x null nx,
        store-ok s new nn _,
        store_ctxt-ok _ new_ctxt nc _,
        ne→== new null nn,
        load-ok _ x nx,
        store-ok _ new nn _,
        load-ok _ new nn,
        store-ok _ new nn _,
        load_ctxt-ok _ new_ctxt nc,
        store_ctxt-ok _ new_ctxt nc _,
        load-ok _ new nn,
        store-ok _ new nn _,
      )
      (ends (record {
        result = refl;
        copied = ground arith;
        others = λ a d. ground arith;
        wq = refl;
        global_wqs = refl;
      }))

module _ (core : ℕ) (idle_task : Ptr) (fuel : ℕ) {s : Kernel} (new new_ctxt thread_fn arg x y : Ptr)
    (ys : List Ptr) (held : Holds s (s.global_wqs core) (x ∷ y ∷ ys)) (started : s.pid_cntr ≢ 1)
    (nn : new ≢ null) (nc : new_ctxt ≢ null) (fresh : IsFresh new (x ∷ y ∷ ys))
    (enough : length ys + 1 < fuel) where
  abbrev wq : Ptr
  wq = s.global_wqs core

  get_curr_task-head : get_curr_task core idle_task s ≡ ok x s
  unfolding get_curr_task wq_get_curr
  get_curr_task-head = rw (
    ne→== s.pid_cntr 1 started,
    ne→== wq null held.wq_ne,
    load_queue-ok s wq held.wq_ne,
    held.chain.0,
  )

  kthread_create-Created :
      Ends (Created new y s) (kthread_create core idle_task new new_ctxt thread_fn arg s)
  unfolding kthread_create
  kthread_create-Created = rw get_curr_task-head (
      after (clone-Created s new new_ctxt x nn nc held.chain.1 (λ e. fresh.0 (sym e))) λ r t c.
        rw (c.result, ne→== new null nn, load-ok t new nn, store-ok t new nn _)
          (ends (record {
            result = refl;
            copied = rw (eq→== new new refl) (c.copied ∙ held.chain.2.0);
            others = λ a d. rw (ne→== a new d) (c.others a d);
            wq = c.wq;
            global_wqs = c.global_wqs;
          })))

  Linked-others :
      (t : Kernel) (p : Ptr) (xs : List Ptr)
      → ((a : Ptr) → a ≢ new → t.task a ≡ s.task a)
      → IsFresh new xs
      → Linked s.task p xs
      → Linked t.task p xs
  Linked-others t p [] o f l = l
  Linked-others t p (z ∷ zs) o f l =
      (l.0, l.1, rw (o z (λ e. f.0 (sym e))) (Linked-others t (s.task z).next zs o f.1 l.2))

  module _ {r : Ptr} {t : Kernel} (c : Created new y s r t) where
    held' : Holds t wq (x ∷ y ∷ ys)
    held' = record {
      wq_ne = held.wq_ne;
      chain = rw c.wq (Linked-others t (s.wq wq).queue (x ∷ y ∷ ys) c.others fresh held.chain);
      distinct = held.distinct;
    }

    abbrev tied : Ptr → Task
    tied = joined t.task x (y ∷ ys) new

    tied-IsClosed : IsClosed tied (new ∷ x ∷ y ∷ ys)
    tied-IsClosed a (inl e) =
        let n : (tied a).next ≡ y =
          rw (e, ne→== new (last x (y ∷ ys)) (ne-last x (y ∷ ys) fresh)) c.copied in
        (rw n held.chain.2.1, inr (inr (inl n)))
    tied-IsClosed a (inr i) =
        LinkedTo-next tied new (t.wq wq).queue x (y ∷ ys) nn
          (LinkedTo-joined t.task new (t.wq wq).queue x (y ∷ ys) held'.chain held.distinct) a i

    end-endless : (k : ℕ) → get_workqueue_end k wq (record t { task = tied }) ≡ out_of_fuel
    unfolding get_workqueue_end
    end-endless k =
        rw
          (
            load_queue-ok (record t { task = tied }) wq held.wq_ne,
            held'.chain.0,
            ne→== x null held.chain.1,
          )
          (end_loop-endless k (record t { task = tied }) (new ∷ x ∷ y ∷ ys) x tied-IsClosed
            (inr (inl refl)) held.chain.1)

  -- The queue of the core holds `x` and another task behind it. If `x`, which is the running task,
  -- creates a task at an address that is not queued and queues it, both calls end, but from then
  -- on the walk to the end of the queue does not, however many steps it is given.
  pub kthread_queue-endless :
      Ends
        (λ _ t. (k : ℕ) → get_workqueue_end k wq t ≡ out_of_fuel)
        ((do
          t ← kthread_create core idle_task new new_ctxt thread_fn arg
          kthread_queue core fuel t)
          s)
  unfolding kthread_queue wq_get_curr
  kthread_queue-endless = after kthread_create-Created λ r t c.
      let same : t.global_wqs core ≡ wq = ap (λ (f : ℕ → Ptr). f core) c.global_wqs in
      rw (c.result, same, wq_push-cons fuel new x (y ∷ ys) (held' c) (omega arith))
        (ends (end-endless c))
