-- ===== src/Smp/Order.antt =====
-- `pop_worker_job`, and the order in which the loop of `worker_process` executes the jobs.
use mathlib.Core.List.{map, append_assoc}
use hob_os.Base.{
  ℕ, zero, suc, ◌<◌, ◌≤◌, ◌≡◌, ◌∙◌, refl, List, [], ◌∷◌, ◌++◌, ltb-le, ◌==◌, update, ne→==, arith,
  length, Bool-cases, inl, inr,
}
use hob_os.Base.Run.{ok, Ends, ends, after, weaken}
use hob_os.Base.Chain.{All-any, Linked-same, last}
use hob_os.Mm.{kfree}
use hob_os.Slub.{Slab}
use hob_os.Task.{Ptr, null}
use hob_os.Smp.{
  Smp, Worker, max_remote_core_id, load_worker, store_worker, execute, pop_worker_job, worker_loop,
  jobs_head,
}
use hob_os.Smp.Queue.{
  Queue, nexts, fn_of, put, put_meta, load_job-ok, store_job-ok, load_meta-ok, store_meta-ok,
}

module _ (s : Smp) (i : ℕ) (h : i ≤ 3) where
  load_worker-ok : load_worker i s ≡ ok (s.smp_worker i) s
  unfolding load_worker
  load_worker-ok = rw (ltb-le max_remote_core_id i h)

  pub store_worker-ok :
      (v : Worker) → store_worker i v s ≡ ok tt (record s { smp_worker = update s.smp_worker i v })
  unfolding store_worker
  store_worker-ok v = rw (ltb-le max_remote_core_id i h)

module _ (core k : ℕ) (idle_task : Ptr) where
  -- `kfree` of `h` ends, and then of the others but the last, one after the other.
  abbrev pub Frees : Ptr → List Ptr → Slab → Type 0
  Frees h [] hp = Unit
  Frees h (x ∷ xs) hp = (hp' : Slab) × (kfree core k idle_task h hp ≡ ok tt hp') × Frees x xs hp'

  -- What `pop_worker_job` leaves.
  record Popped (mt x : Ptr) (js : List Ptr) (hp : Slab) (s v : Smp) : Type 0 where
    pub queue : Queue v mt x js
    pub jobs : (v.smp_worker core).jobs ≡ x
    pub fns : (a : Ptr) → fn_of v a ≡ fn_of s a
    pub heap : v.heap ≡ hp
    pub executed : v.executed ≡ s.executed

  pop_worker_job-Popped :
      (s : Smp) (mt h x : Ptr) (js : List Ptr) (hp : Slab)
      → core ≤ 3
      → (s.smp_worker core).jobs ≡ h
      → Queue s mt h (x ∷ js)
      → kfree core k idle_task h s.heap ≡ ok tt hp
      → Ends (λ _ v. Popped mt x js hp s v) (pop_worker_job core k idle_task core s)
  unfolding pop_worker_job last
  pop_worker_job-Popped s mt h x js hp small jobs q free =
      let hn = q.linked.1 in
      let xn = q.linked.2.1 in
      let a : Smp = put s x (record (s.job x) { meta = mt }) in
      let b : Smp = put_meta a mt (record (a.meta mt) { head = x }) in
      let c : Smp = put b x (record (b.job x) { job_pos = jobs_head }) in
      let d : Smp = record c {
        smp_worker = update c.smp_worker core (record (s.smp_worker core) { jobs = x });
      } in
      let v : Smp = record d { heap = hp } in
      let same : (e : Ptr) → nexts v e ≡ nexts s e =
        λ e. elim (Bool-cases (e == x)) [ inl y ↦ ground arith | inr y ↦ ground arith ] in
      rw
        (
          load_worker-ok s core small,
          jobs,
          load_job-ok s h hn,
          q.linked.2.0,
          load_job-ok s x xn,
          q.has_meta,
          store_job-ok s x (record (s.job x) { meta = mt }) xn,
          load_meta-ok a mt q.meta_ne,
          store_meta-ok a mt (record (a.meta mt) { head = x }) q.meta_ne,
          load_job-ok b x xn,
          store_job-ok b x (record (b.job x) { job_pos = jobs_head }) xn,
          store_worker-ok c core small (record (s.smp_worker core) { jobs = x }),
          free,
        )
        (ends {s = v} (record {
          queue = record {
            linked = (
              refl,
              xn,
              rw (same x)
                  (Linked-same (nexts s) (nexts v) (nexts s x) js (All-any js same) q.linked.2.2),
            );
            distinct = q.distinct.1;
            has_meta = ground arith;
            meta_ne = q.meta_ne;
            head = ground arith;
            tail = ground (arith, q.tail);
          };
          jobs = ground arith;
          fns = λ e. elim (Bool-cases (e == x)) [ inl y ↦ ground arith | inr y ↦ ground arith ];
          heap = refl;
          executed = refl;
        }))

  abbrev ran : Smp → Ptr → Smp
  ran s h = record s { executed = s.executed ++ fn_of s h ∷ [] }

  ran-Queue : (s : Smp) (mt h : Ptr) (js : List Ptr) → Queue s mt h js → Queue (ran s h) mt h js
  ran-Queue s mt h js q = record {
    linked = q.linked;
    distinct = q.distinct;
    has_meta = q.has_meta;
    meta_ne = q.meta_ne;
    head = q.head;
    tail = q.tail;
  }

  map-same : {f g : Ptr → Ptr} (js : List Ptr) → ((a : Ptr) → f a ≡ g a) → map f js ≡ map g js
  map-same [] h = refl
  map-same (x ∷ xs) h = rw (h x, map-same xs h) refl

  -- What the loop leaves.
  pub record Drained (mt h : Ptr) (js : List Ptr) (s v : Smp) : Type 0 where
    pub executed : v.executed ≡ s.executed ++ map (fn_of s) (h ∷ js)
    pub jobs : (v.smp_worker core).jobs ≡ last h js
    pub queue : Queue v mt (last h js) []

  -- The core number is at most 3. The worker's jobs are the queue of `h` and then `js`, of fewer jobs than the fuel and one more,
  -- and `kfree` ends for each job but the last. Then the loop of `worker_process` ends; it has executed
  -- the functions of all jobs, each once and in the order of the queue, and the last job is left.
  pub worker_loop-Drained :
      (n : ℕ) (s : Smp) (mt h : Ptr) (js : List Ptr)
      → core ≤ 3
      → (s.smp_worker core).jobs ≡ h
      → Queue s mt h js
      → Frees h js s.heap
      → length js < n
      → Ends (λ _ v. Drained mt h js s v) (worker_loop core k idle_task n s)
  unfolding worker_loop execute last
  worker_loop-Drained zero s mt h js small jobs q free enough = absurd (omega arith)
  worker_loop-Drained (suc n) s mt h [] small jobs q free enough =
      let t = ran s h in
      rw
        (
          load_worker-ok s core small,
          jobs,
          load_job-ok s h q.linked.1,
          load_worker-ok t core small,
          jobs,
          load_job-ok t h q.linked.1,
          q.linked.2,
        )
        (ends {s = t} (record { executed = refl; jobs = jobs; queue = ran-Queue s mt h [] q }))
  worker_loop-Drained (suc n) s mt h (x ∷ js) small jobs q free enough =
      let t = ran s h in
      rw
        (
          load_worker-ok s core small,
          jobs,
          load_job-ok s h q.linked.1,
          load_worker-ok t core small,
          jobs,
          load_job-ok t h q.linked.1,
          q.linked.2.0,
          ne→== x null q.linked.2.1,
        )
        (after
          (pop_worker_job-Popped t mt h x js free.0 small jobs (ran-Queue s mt h (x ∷ js) q) free.1)
          λ _ v p.
            weaken
              (worker_loop-Drained n v mt x js small p.jobs p.queue (rw p.heap free.2)
                (omega arith))
              λ _ w d. record {
                executed =
                    d.executed
                    ∙ rw
                        (
                          p.executed,
                          map-same (x ∷ js) p.fns,
                          append_assoc s.executed (fn_of s h ∷ []) (map (fn_of s) (x ∷ js)),
                        )
                        refl;
                jobs = d.jobs;
                queue = d.queue;
              })
