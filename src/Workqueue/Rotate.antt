-- ===== src/Workqueue/Rotate.antt =====
-- `wq_pop` and `wq_queue_next`: one turn of the round robin, and a whole round.
use hob_os.Base.{
  ℕ, zero, suc, ◌<◌, ◌≡◌, ◌≢◌, refl, List, [], ◌∷◌, ◌++◌, arith, length, length-append, true, false,
  ap, ne→==, eq→==, update, if◌then◌else◌, Bool-cases, inl, inr, ap,
}
use mathlib.Core.List.{append_assoc, append-nil}
use hob_os.Base.Run.{Cmd, Ends, ends, after, weaken, ok, pure, ◌>>=◌, ◌>>◌}
use hob_os.Task.{Ptr, null, Task, Kernel, load, load_queue}
use hob_os.Task.Access.{load-ok, set_next-ok, load_queue-ok, set_queue-ok}
use hob_os.Workqueue.{print_loop, wq_print, wq_pop, wq_queue_next, wq_is_empty, has_completed}
use hob_os.Workqueue.Chain.{
  Linked, Holds, Linked-update, OnlyQueue, OnlyQueue-refl, OnlyQueue-trans, OnlyQueue-completed,
}
use hob_os.Workqueue.Ops.{wq_push-append}

-- `wq_is_empty` tells whether the queue holds no task.
pub wq_is_empty-ok :
    {s : Kernel} {wq : Ptr} (xs : List Ptr)
    → Holds s wq xs
    → wq_is_empty wq s ≡ ok (elim xs [ [] ↦ true | _ ↦ false ]) s
unfolding wq_is_empty
wq_is_empty-ok {s} {wq} [] h = rw (load_queue-ok s wq h.wq_ne, h.chain)
wq_is_empty-ok {s} {wq} (x ∷ xs) h =
    rw (load_queue-ok s wq h.wq_ne, h.chain.0, ne→== x null h.chain.1)

has_completed-ok : (s : Kernel) (t : Ptr) → t ≢ null → has_completed t s ≡ ok (s.task t).completed s
unfolding has_completed
has_completed-ok s t ne = rw (load-ok s t ne)

-- The queue after `x` has left it.
abbrev popped : Kernel → Ptr → Ptr → Kernel
popped s wq x = record s {
  wq = update s.wq wq (record (s.wq wq) { queue = (s.task x).next });
  task = update s.task x (record (s.task x) { next = null });
}

-- What `wq_pop` returns for the task at the head: NULL if the task has completed.
abbrev pub unless_completed : (Ptr → Task) → Ptr → Ptr
unless_completed h x = if (h x).completed then null else x

pub wq_pop-nil : {s : Kernel} {wq : Ptr} → Holds s wq [] → wq_pop wq s ≡ ok null s
unfolding wq_pop
wq_pop-nil h = rw (wq_is_empty-ok [] h)

wq_pop-eq :
    {s : Kernel} {wq : Ptr} (x : Ptr) (xs : List Ptr)
    → Holds s wq (x ∷ xs)
    → wq_pop wq s ≡ ok (unless_completed s.task x) (popped s wq x)
unfolding wq_pop
wq_pop-eq {s} {wq} x xs h =
    rw
      (
        wq_is_empty-ok (x ∷ xs) h,
        load_queue-ok s wq h.wq_ne,
        h.chain.0,
        load-ok s x h.chain.1,
        set_queue-ok s wq h.wq_ne (s.task x).next,
        set_next-ok _ x h.chain.1 null,
        has_completed-ok (popped s wq x) x h.chain.1,
      )
      (ground arith)

-- If the queue holds `x` and then `xs`, then `wq_pop` ends, and takes `x` off the queue and out of
-- the link to the next task. The result is `x`, or NULL if it has completed. Nothing but this
-- queue and `next` of tasks has changed.
pub wq_pop-cons :
    {s : Kernel} {wq : Ptr} (x : Ptr) (xs : List Ptr)
    → Holds s wq (x ∷ xs)
    → Ends
        (λ r s'.
          (r ≡ unless_completed s.task x)
          × Holds s' wq xs
          × ((s'.task x).next ≡ null)
          × OnlyQueue wq s s')
        (wq_pop wq s)
wq_pop-cons {s} {wq} x xs h = rw (wq_pop-eq x xs h) (
    ends (
      refl,
      record {
        wq_ne = h.wq_ne;
        chain = rw (eq→== wq wq refl) (
            Linked-update s.task x (record (s.task x) { next = null }) (s.task x).next xs
              h.distinct.0 h.chain.2);
        distinct = h.distinct.1;
      },
      ground arith,
      record {
        tasks = ground arith;
        others = ground arith;
        ctxt = refl;
        word = refl;
        global_wqs = refl;
        pid_cntr = refl;
        cpu = refl;
      },
    ))

-- One turn of the round robin: the first task goes to the back, or out if it has completed.
abbrev pub turn : (Ptr → Task) → List Ptr → List Ptr
turn h [] = []
turn h (x ∷ xs) = if (h x).completed then xs else xs ++ x ∷ []

abbrev pub head_or_null : List Ptr → Ptr
head_or_null [] = null
head_or_null (x ∷ xs) = x

print_loop-ok :
    (k : ℕ) (s : Kernel) (p : Ptr) (xs : List Ptr)
    → Linked s.task p xs
    → length xs < k
    → print_loop k p s ≡ ok tt s
unfolding print_loop load
print_loop-ok zero s p xs l f = absurd (omega arith)
print_loop-ok (suc k) s p [] l f = ground arith
print_loop-ok (suc k) s p (x ∷ xs) l f = ground (arith, print_loop-ok k s (s.task x).next xs)

queue-head :
    {s : Kernel} {wq : Ptr} (xs : List Ptr) → Holds s wq xs → (s.wq wq).queue ≡ head_or_null xs
queue-head [] h = h.chain
queue-head (x ∷ xs) h = h.chain.0

-- The second half of `wq_queue_next`: it returns the head and changes nothing.
abbrev return_head : ℕ → Ptr → Cmd Kernel Ptr
return_head fuel wq = do t ← load_queue wq; wq_print fuel wq; pure t

return_head-ok :
    (k : ℕ) {s : Kernel} {wq : Ptr} (xs : List Ptr)
    → Holds s wq xs
    → length xs < k
    → return_head k wq s ≡ ok (head_or_null xs) s
unfolding wq_print
return_head-ok k {s} {wq} xs h f =
    rw
      (
        load_queue-ok s wq h.wq_ne,
        load_queue-ok s wq h.wq_ne,
        print_loop-ok k s (s.wq wq).queue xs h.chain f,
      )
      (ap (λ q. ok q s) (queue-head xs h))

-- If the queue holds the tasks `xs`, fewer than the fuel, then `wq_queue_next` ends. The first
-- task has gone to the end of the queue, or has left it if it has completed; the result is the
-- task that is then at the head, or NULL; and nothing but this queue and `next` of tasks has
-- changed.
pub wq_queue_next-turn :
    (k : ℕ) {s : Kernel} {wq : Ptr} (xs : List Ptr)
    → Holds s wq xs
    → length xs < k
    → Ends
        (λ r s'.
          Holds s' wq (turn s.task xs) × (r ≡ head_or_null (turn s.task xs)) × OnlyQueue wq s s')
        (wq_queue_next k wq s)
unfolding wq_queue_next
wq_queue_next-turn k {s} {wq} [] h f =
    rw (wq_pop-nil h, return_head-ok k [] h f) (ends (h, refl, OnlyQueue-refl))
wq_queue_next-turn k {s} {wq} (x ∷ xs) h f = elim (Bool-cases (s.task x).completed) [
  | inl c ↦ rw c (
      after (wq_pop-cons x xs h) λ r s' (e, h', nx, only).
        rw (e, c, return_head-ok k xs h' (omega arith)) (ends (h', refl, only)))
  | inr c ↦ rw c (
      after (wq_pop-cons x xs h) λ r s' (e, h', nx, only).
        rw (e, c, ne→== x null h.chain.1)
          (after (wq_push-append k x xs h' h.distinct.0 h.chain.1 nx (omega arith))
            λ u s'' (h'', only').
              rw (return_head-ok k (xs ++ x ∷ []) h'' (omega (arith, length-append xs (x ∷ []))))
                (ends (h'', refl, OnlyQueue-trans only only'))))
]

-- A number of turns.
unfoldable pub turns : ℕ → ℕ → Ptr → Cmd Kernel (Unit {0})
turns zero fuel wq = pure tt
turns (suc n) fuel wq = do wq_queue_next fuel wq; turns n fuel wq

-- The tasks that have not completed, in order.
unfoldable pub unfinished : (Ptr → Task) → List Ptr → List Ptr
unfinished h [] = []
unfinished h (x ∷ xs) = if (h x).completed then unfinished h xs else x ∷ unfinished h xs

unfinished-same :
    {wq : Ptr} {s t : Kernel} (xs : List Ptr)
    → OnlyQueue wq s t
    → unfinished t.task xs ≡ unfinished s.task xs
unfolding unfinished
unfinished-same [] o = refl
unfinished-same (x ∷ xs) o = rw (OnlyQueue-completed x o, unfinished-same xs o)

round_from :
    (k : ℕ) {s : Kernel} {wq : Ptr} (xs ys : List Ptr)
    → Holds s wq (xs ++ ys)
    → length (xs ++ ys) < k
    → Ends
        (λ _ s'. Holds s' wq (ys ++ unfinished s.task xs) × OnlyQueue wq s s')
        (turns (length xs) k wq s)
unfolding turns unfinished
round_from k [] ys h f = ends (rw append-nil h, OnlyQueue-refl)
round_from k {s} {wq} (x ∷ xs) ys h f = elim (Bool-cases (s.task x).completed) [
  | inl c ↦ rw c (
      after (wq_queue_next-turn k (x ∷ (xs ++ ys)) h f) λ r s' (h', e, only).
        weaken (round_from k xs ys (rw c at h') (omega arith))
          λ u t (h'', only'). (rw (unfinished-same xs only) at h'', OnlyQueue-trans only only'))
  | inr c ↦ rw c (
      after (wq_queue_next-turn k (x ∷ (xs ++ ys)) h f) λ r s' (h', e, only).
        weaken
          (round_from k xs (ys ++ x ∷ []) (rw (c, append_assoc) at h') (
            omega (
              arith,
              length-append xs ys,
              length-append xs (ys ++ x ∷ []),
              length-append ys (x ∷ []),
            )))
          λ u t (h'', only').
            (rw (unfinished-same xs only, append_assoc) at h'', OnlyQueue-trans only only'))
]

-- If the queue holds the tasks `xs`, fewer than the fuel, then as many calls of `wq_queue_next` as
-- there are tasks end, and bring the queue back to its order, less the completed tasks. Nothing
-- but this queue and `next` of tasks has changed.
pub turns-round :
    (k : ℕ) {s : Kernel} {wq : Ptr} (xs : List Ptr)
    → Holds s wq xs
    → length xs < k
    → Ends
        (λ _ s'. Holds s' wq (unfinished s.task xs) × OnlyQueue wq s s')
        (turns (length xs) k wq s)
turns-round k xs h f = round_from k xs [] (rw append-nil h) (rw append-nil f)
