-- ===== src/Workqueue/Ops.antt =====
-- What `wq_pop`, `wq_push` and `wq_queue_next` do to the list of tasks that a queue holds.
use hob_os.Base.{
  ℕ, zero, suc, ◌<◌, ◌≡◌, ◌≢◌, refl, List, [], ◌∷◌, ◌++◌, arith, length, IsFresh, ne→==, update,
}
use hob_os.Base.Run.{Ends, ends, ok}
use hob_os.Task.{Ptr, null, Kernel, load, load_queue}
use hob_os.Task.Access.{set_next-ok, set_queue-ok}
use hob_os.Workqueue.{end_loop, get_workqueue_end, wq_push}
use hob_os.Workqueue.Chain.{
  Linked, Holds, last, last_ne_null, joined, Linked-joined, IsDistinct-snoc, OnlyQueue,
}

end_loop-last :
    (k : ℕ) (s : Kernel) (p x : Ptr) (xs : List Ptr)
    → Linked s.task p (x ∷ xs)
    → length xs < k
    → end_loop k p s ≡ ok (last x xs) s
unfolding end_loop last load
end_loop-last zero s p x xs l f = absurd (omega arith)
end_loop-last (suc k) s p x [] l f = ground arith
end_loop-last (suc k) s p x (y ∷ ys) l f = ground (arith, end_loop-last k s (s.task x).next y ys)

pub get_workqueue_end-nil :
    (k : ℕ) {s : Kernel} {wq : Ptr} → Holds s wq [] → get_workqueue_end k wq s ≡ ok null s
unfolding get_workqueue_end load_queue
get_workqueue_end-nil k h = ground arith

pub get_workqueue_end-cons :
    (k : ℕ) {s : Kernel} {wq : Ptr} (x : Ptr) (xs : List Ptr)
    → Holds s wq (x ∷ xs)
    → length xs < k
    → get_workqueue_end k wq s ≡ ok (last x xs) s
unfolding get_workqueue_end load_queue
get_workqueue_end-cons k {s} {wq} x xs h f = ground (arith, end_loop-last k s (s.wq wq).queue x xs)

wq_push-nil :
    (k : ℕ) {s : Kernel} {wq : Ptr} (t : Ptr)
    → Holds s wq []
    → t ≢ null
    → wq_push k wq t s
      ≡ ok tt (record s {
        wq = update s.wq wq (record (s.wq wq) { queue = t });
        task = update s.task t (record (s.task t) { next = null });
      })
unfolding wq_push
wq_push-nil k {s} {wq} t h nn =
    rw (get_workqueue_end-nil k h, set_queue-ok s wq h.wq_ne t, set_next-ok _ t nn null)

pub wq_push-cons :
    (k : ℕ) {s : Kernel} {wq : Ptr} (t x : Ptr) (xs : List Ptr)
    → Holds s wq (x ∷ xs)
    → length xs < k
    → wq_push k wq t s ≡ ok tt (record s { task = joined s.task x xs t })
unfolding wq_push
wq_push-cons k {s} {wq} t x xs h f =
    let nn : last x xs ≢ null = last_ne_null s.task (s.wq wq).queue x xs h.chain in
    rw
      (get_workqueue_end-cons k x xs h f, ne→== (last x xs) null nn, set_next-ok s (last x xs) nn t)

-- If the queue holds the tasks `xs`, fewer than the fuel, then `wq_push` ends and appends a task
-- that is not queued and whose `next` is NULL. Nothing but this queue and `next` of tasks has
-- changed.
pub wq_push-append :
    (k : ℕ) {s : Kernel} {wq : Ptr} (t : Ptr) (xs : List Ptr)
    → Holds s wq xs
    → IsFresh t xs
    → t ≢ null
    → (s.task t).next ≡ null
    → length xs < k
    → Ends (λ _ s'. Holds s' wq (xs ++ t ∷ []) × OnlyQueue wq s s') (wq_push k wq t s)
wq_push-append k {s} {wq} t [] h f nn e fuel = rw (wq_push-nil k t h nn) (
    ends (
      record { wq_ne = h.wq_ne; chain = ground arith; distinct = (tt, tt) },
      record {
        tasks = ground arith;
        others = ground arith;
        ctxt = refl;
        word = refl;
        global_wqs = refl;
        pid_cntr = refl;
        cpu = refl;
      },
    ))
wq_push-append k {s} {wq} t (x ∷ xs) h f nn e fuel = rw (wq_push-cons k t x xs h (omega arith)) (
    ends (
      record {
        wq_ne = h.wq_ne;
        chain = Linked-joined s.task t (s.wq wq).queue x xs h.chain h.distinct f nn e;
        distinct = IsDistinct-snoc (x ∷ xs) t h.distinct f;
      },
      record {
        tasks = ground arith;
        others = λ w n. refl;
        ctxt = refl;
        word = refl;
        global_wqs = refl;
        pid_cntr = refl;
        cpu = refl;
      },
    ))
