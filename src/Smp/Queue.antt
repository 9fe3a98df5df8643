-- ===== src/Smp/Queue.antt =====
-- The queue of jobs, and what `push_worker_job` and `set_job_queue_head` make of it.
use hob_os.Base.{
  ℕ, ◌≡◌, ◌≢◌, ◌∙◌, refl, sym, ap, List, [], ◌∷◌, ◌++◌, inl, inr, ◌==◌, update, eq→==, ne→==, arith,
  IsFresh, IsDistinct, Bool-cases,
}
use hob_os.Base.Run.{ok, ◌>>=◌, ◌>>◌, Ends, ends}
use hob_os.Base.Chain.{Linked, Linked-snoc, Linked-ne, All-last, last, ne-last, IsDistinct-snoc}
use hob_os.Mm.{kmalloc}
use hob_os.Slub.{Slab}
use hob_os.Task.{Ptr, null}
use hob_os.Smp.{
  Smp, WorkerJob, JobsMeta, load_job, store_job, load_meta, store_meta, create_job, push_worker_job,
  set_job_queue_head, zero_job, jobs_head, jobs_tail,
}

abbrev pub nexts : Smp → ℕ → ℕ
nexts s a = (s.job a).next

abbrev pub fn_of : Smp → Ptr → Ptr
fn_of s a = (s.job a).fn_addr

abbrev pub put : Smp → Ptr → WorkerJob → Smp
put s j v = record s { job = update s.job j v }

abbrev pub put_meta : Smp → Ptr → JobsMeta → Smp
put_meta s m v = record s { meta = update s.meta m v }

module _ (s : Smp) where
  pub load_job-ok : (j : Ptr) → j ≢ null → load_job j s ≡ ok (s.job j) s
  unfolding load_job
  load_job-ok j ne = rw (ne→== j null ne)

  pub store_job-ok : (j : Ptr) (v : WorkerJob) → j ≢ null → store_job j v s ≡ ok tt (put s j v)
  unfolding store_job
  store_job-ok j v ne = rw (ne→== j null ne)

  pub load_meta-ok : (m : Ptr) → m ≢ null → load_meta m s ≡ ok (s.meta m) s
  unfolding load_meta
  load_meta-ok m ne = rw (ne→== m null ne)

  pub store_meta-ok :
      (m : Ptr) (v : JobsMeta) → m ≢ null → store_meta m v s ≡ ok tt (put_meta s m v)
  unfolding store_meta
  store_meta-ok m v ne = rw (ne→== m null ne)

-- The jobs `h`, then those of `js`, are linked to the end, and `mt` has the first and the last.
pub record Queue (s : Smp) (mt h : Ptr) (js : List Ptr) : Type 0 where
  pub linked : Linked (nexts s) h (h ∷ js)
  pub distinct : IsDistinct (h ∷ js)
  pub has_meta : (s.job h).meta ≡ mt
  pub meta_ne : mt ≢ null
  pub head : (s.meta mt).head ≡ h
  pub tail : (s.meta mt).tail ≡ last h js

last-snoc : (x n : ℕ) (xs : List ℕ) → last x (xs ++ n ∷ []) ≡ n
unfolding last
last-snoc x n [] = refl
last-snoc x n (y ∷ ys) = last-snoc y n ys

-- What `push_worker_job` leaves.
pub record Pushed (mt h : Ptr) (js : List Ptr) (n fn : Ptr) (hp : Slab) (s v : Smp) : Type 0 where
  pub queue : Queue v mt h (js ++ n ∷ [])
  pub fn_new : fn_of v n ≡ fn
  pub fns : (a : Ptr) → a ≢ n → fn_of v a ≡ fn_of s a
  pub heap : v.heap ≡ hp
  pub executed : v.executed ≡ s.executed
  pub workers : v.smp_worker ≡ s.smp_worker

module _ (core k : ℕ) (idle_task : Ptr) where
  abbrev with_job : Smp → Slab → Ptr → Ptr → Smp
  with_job s hp n fn =
      put (put (record s { heap = hp }) n zero_job) n (record zero_job { fn_addr = fn })

  pub create_job-ok :
      (s : Smp) (fn n : Ptr) (hp : Slab)
      → kmalloc core k idle_task 32 s.heap ≡ ok n hp
      → n ≢ null
      → create_job core k idle_task fn s ≡ ok n (with_job s hp n fn)
  unfolding create_job
  create_job-ok s fn n hp given ne =
      let s0 : Smp = put (record s { heap = hp }) n zero_job in
      rw
        (
          given,
          ne→== n null ne,
          store_job-ok (record s { heap = hp }) n zero_job ne,
          load_job-ok s0 n ne,
          eq→== n n refl,
          store_job-ok s0 n (record zero_job { fn_addr = fn }) ne,
        )
        refl

  module _ {s : Smp} {mt h n : Ptr} {js : List Ptr} {hp : Slab} (q : Queue s mt h js) (fn : Ptr)
      (given : kmalloc core k idle_task 32 s.heap ≡ ok n hp) (ne : n ≢ null)
      (fresh : IsFresh n (h ∷ js)) where
    abbrev t : Ptr
    t = last h js

    h_ne : h ≢ null
    h_ne = q.linked.1

    t_ne : t ≢ null
    t_ne = All-last (λ a. a ≢ 0) h js (Linked-ne (nexts s) h (h ∷ js) q.linked)

    n_t : n ≢ t
    n_t = ne-last h js fresh

    -- The state after the new job has been linked behind the last one
    record Tied (v : Smp) : Type 0 where
      pub new : v.job n ≡ record zero_job { fn_addr = fn }
      pub next : nexts v t ≡ n
      pub nexts_same : (a : Ptr) → a ≢ t → a ≢ n → nexts v a ≡ nexts s a
      pub fns : (a : Ptr) → a ≢ n → fn_of v a ≡ fn_of s a
      pub metas : (a : Ptr) → a ≢ n → (v.job a).meta ≡ (s.job a).meta
      pub meta : v.meta ≡ s.meta
      pub heap : v.heap ≡ hp
      pub executed : v.executed ≡ s.executed
      pub workers : v.smp_worker ≡ s.smp_worker

    abbrev created : Smp
    created = with_job s hp n fn

    abbrev tied : Smp
    tied = put created t (record (created.job t) { next = n })

    tied-Tied : (pos : ℕ) → Tied (put tied t (record (tied.job t) { job_pos = pos }))
    tied-Tied pos = record {
      new = ground (arith, n_t);
      next = ground arith;
      nexts_same = λ a at an. ground arith;
      fns = λ a an. elim (Bool-cases (a == t)) [ inl e ↦ ground arith | inr e ↦ ground arith ];
      metas = λ a an. elim (Bool-cases (a == t)) [ inl e ↦ ground arith | inr e ↦ ground arith ];
      meta = refl;
      heap = refl;
      executed = refl;
      workers = refl;
    }

    tied-unchanged : Tied tied
    tied-unchanged = record {
      new = ground (arith, n_t);
      next = ground arith;
      nexts_same = λ a at an. ground arith;
      fns = λ a an. elim (Bool-cases (a == t)) [ inl e ↦ ground arith | inr e ↦ ground arith ];
      metas = λ a an. elim (Bool-cases (a == t)) [ inl e ↦ ground arith | inr e ↦ ground arith ];
      meta = refl;
      heap = refl;
      executed = refl;
      workers = refl;
    }

    -- The last two writes
    abbrev finished : Smp → Smp
    finished v =
        let w = put v n (record (v.job n) { job_pos = jobs_tail }) in
        put_meta w mt (record (w.meta mt) { tail = n })

    finished-Pushed : (v : Smp) → Tied v → Pushed mt h js n fn hp s (finished v)
    finished-Pushed v x =
        let hn : h ≢ n = λ e. fresh.0 (sym e) in
        let other : (a : Ptr) → a ≢ n → (finished v).job a ≡ v.job a = λ a an. ground arith in
        let this : (finished v).job n ≡ record (v.job n) { job_pos = jobs_tail } = ground arith in
        let ends_now : (finished v).meta mt ≡ record { head = (v.meta mt).head; tail = n } =
          ground arith in
        record {
          queue = record {
            linked =
                Linked-snoc (nexts s) (nexts (finished v)) n h h js q.linked q.distinct fresh ne
                  (ap WorkerJob.next this ∙ ap WorkerJob.next x.new)
                  (ap WorkerJob.next (other t (λ e. n_t (sym e))) ∙ x.next)
                  (λ a at an. ap WorkerJob.next (other a an) ∙ x.nexts_same a at an);
            distinct = IsDistinct-snoc (h ∷ js) n q.distinct fresh;
            has_meta = ap WorkerJob.meta (other h hn) ∙ x.metas h hn ∙ q.has_meta;
            meta_ne = q.meta_ne;
            head = ap JobsMeta.head ends_now ∙ ap (λ m. (m mt).head) x.meta ∙ q.head;
            tail = ap JobsMeta.tail ends_now ∙ sym (last-snoc h n js);
          };
          fn_new = ap WorkerJob.fn_addr this ∙ ap WorkerJob.fn_addr x.new;
          fns = λ a an. ap WorkerJob.fn_addr (other a an) ∙ x.fns a an;
          heap = x.heap;
          executed = x.executed;
          workers = x.workers;
        }

    finish :
        (v : Smp)
        → Tied v
        → Ends
            (λ _ w. Pushed mt h js n fn hp s w)
            ((do
              j ← load_job n
              store_job n (record j { job_pos = jobs_tail })
              m ← load_meta mt
              store_meta mt (record m { tail = n }))
              v)
    finish v x =
        let w : Smp = put v n (record (v.job n) { job_pos = jobs_tail }) in
        rw
          (
            load_job-ok v n ne,
            store_job-ok v n (record (v.job n) { job_pos = jobs_tail }) ne,
            load_meta-ok w mt q.meta_ne,
            store_meta-ok w mt (record (w.meta mt) { tail = n }) q.meta_ne,
          )
          (ends {s = finished v} (finished-Pushed v x))

    -- The queue of the jobs `h` and `js` stands; `kmalloc` gives `n`, which is not one of them and not
    -- NULL. Then `push_worker_job` ends; the queue is that of the jobs with `n` behind the last one, `n`
    -- has the function, and the functions of the other jobs are unchanged.
    pub push_worker_job-Pushed :
        Ends (λ _ v. Pushed mt h js n fn hp s v) (push_worker_job core k idle_task h fn s)
    unfolding push_worker_job
    push_worker_job-Pushed =
        rw
          (
            load_job-ok s h h_ne,
            q.has_meta,
            ne→== mt null q.meta_ne,
            create_job-ok s fn n hp given ne,
            load_meta-ok created mt q.meta_ne,
            q.tail,
            load_job-ok created t t_ne,
            store_job-ok created t (record (created.job t) { next = n }) t_ne,
            load_job-ok tied t t_ne,
          )
          (elim (Bool-cases ((tied.job t).job_pos == jobs_head)) [
            | inl e ↦ rw e (finish tied tied-unchanged)
            | inr e ↦
                rw (e, store_job-ok tied t (record (tied.job t) { job_pos = 0 }) t_ne)
                  (finish (put tied t (record (tied.job t) { job_pos = 0 })) (tied-Tied 0))
          ])

  -- `kmalloc` gives two objects, neither at NULL. Then `set_job_queue_head` ends with a queue of one job, which has
  -- the function, and has executed nothing.
  pub set_job_queue_head-Queue :
      (s : Smp) (fn h mt : Ptr) (hp hp' : Slab)
      → kmalloc core k idle_task 32 s.heap ≡ ok h hp
      → kmalloc core k idle_task 16 hp ≡ ok mt hp'
      → h ≢ null
      → mt ≢ null
      → Ends
          (λ r v.
            (r ≡ h)
            × Queue v mt h []
            × (fn_of v h ≡ fn)
            × (v.executed ≡ s.executed)
            × (v.heap ≡ hp')
            × (v.smp_worker ≡ s.smp_worker))
          (set_job_queue_head core k idle_task fn s)
  unfolding set_job_queue_head last
  set_job_queue_head-Queue s fn h mt hp hp' given_h given_mt hn mn =
      let a : Smp = with_job s hp h fn in
      let b : Smp = record a { heap = hp' } in
      let c : Smp = put b h (record (b.job h) { meta = mt }) in
      let d : Smp = put c h (record (c.job h) { job_pos = jobs_head }) in
      rw
        (
          create_job-ok s fn h hp given_h hn,
          given_mt,
          load_job-ok b h hn,
          store_job-ok b h (record (b.job h) { meta = mt }) hn,
          ne→== mt null mn,
          load_job-ok c h hn,
          store_job-ok c h (record (c.job h) { job_pos = jobs_head }) hn,
          load_meta-ok d mt mn,
          store_meta-ok d mt (record (d.meta mt) { head = h; tail = h }) mn,
        )
        (ends {s = put_meta d mt (record (d.meta mt) { head = h; tail = h })} (
          refl,
          record {
            linked = (refl, hn, ground arith);
            distinct = (tt, tt);
            has_meta = ground arith;
            meta_ne = mn;
            head = ground arith;
            tail = ground arith;
          },
          ground arith,
          refl,
          refl,
          refl,
        ))
