-- ===== src/Smp/Phases.antt =====
-- The phases through which a handover of Smp/Handoff goes, and how far any sequence of steps gets.
use hob_os.Base.{
  ℕ, suc, ◌*◌, ◌+◌, ◌≤◌, ◌<◌, ◌≡◌, ◌≢◌, ◌⊎◌, inl, inr, refl, List, [], ◌∷◌, true, false, ltb-le,
  ne→==, subst, sym, arith,
}
use hob_os.Smp.{max_remote_core_id}
use hob_os.PageTable.{va_to_pa}
use hob_os.Task.{Ptr, null}
use hob_os.Smp.Handoff.{
  idle, locked, stored, asleep, executing, releasing, waiting, Handoff, Event, call, park_and_wait,
  Has, step, run, set_up, calls,
}

module _ (core jump_to_el1 worker_process : ℕ) where
  -- The phases of a handover, behind the calls of `n` jobs
  data Phase : Handoff → Type 0 where
    in_table : Phase (record {
      mutex0 = true;
      mutex1 = true;
      exec_addr = va_to_pa jump_to_el1;
      caller = idle;
      remote = asleep;
      asked = 0;
      started = [];
    })
    in_function :
        (e : Ptr) (n : ℕ)
        → Phase (record {
          mutex0 = true;
          mutex1 = true;
          exec_addr = e;
          caller = idle;
          remote = executing;
          asked = n;
          started = calls core jump_to_el1 worker_process n;
        })
    in_release :
        (e : Ptr) (n : ℕ)
        → Phase (record {
          mutex0 = true;
          mutex1 = false;
          exec_addr = e;
          caller = idle;
          remote = releasing;
          asked = n;
          started = calls core jump_to_el1 worker_process n;
        })
    parked :
        (e : Ptr) (n : ℕ)
        → Phase (record {
          mutex0 = false;
          mutex1 = false;
          exec_addr = e;
          caller = idle;
          remote = waiting;
          asked = n;
          started = calls core jump_to_el1 worker_process n;
        })
    taken :
        (e : Ptr) (n : ℕ)
        → Phase (record {
          mutex0 = true;
          mutex1 = false;
          exec_addr = e;
          caller = locked;
          remote = waiting;
          asked = n;
          started = calls core jump_to_el1 worker_process n;
        })
    ready :
        (n : ℕ)
        → Phase (record {
          mutex0 = true;
          mutex1 = false;
          exec_addr = worker_process;
          caller = stored;
          remote = waiting;
          asked = n;
          started = calls core jump_to_el1 worker_process n;
        })
    handed :
        (n : ℕ)
        → Phase (record {
          mutex0 = true;
          mutex1 = true;
          exec_addr = worker_process;
          caller = idle;
          remote = waiting;
          asked = suc n;
          started = calls core jump_to_el1 worker_process n;
        })

  -- How far the handovers have come: six phases for each
  abbrev rank : {s : Handoff} → Phase s → ℕ
  rank in_table = 0
  rank (in_function e n) = 1 + 6 * n
  rank (in_release e n) = 2 + 6 * n
  rank (parked e n) = 3 + 6 * n
  rank (taken e n) = 4 + 6 * n
  rank (ready n) = 5 + 6 * n
  rank (handed n) = 6 + 6 * n

  -- The party that can go on
  abbrev turn : {s : Handoff} → Phase s → Event
  turn in_table = park_and_wait
  turn (in_function e n) = park_and_wait
  turn (in_release e n) = park_and_wait
  turn (parked e n) = call
  turn (taken e n) = call
  turn (ready n) = call
  turn (handed n) = park_and_wait

  -- A step of the party whose turn it is leads to the next phase, another one changes nothing.
  abbrev Moves : Event → (s : Handoff) → Phase s → Type 0
  Moves e s p =
      (p' : Phase (step core jump_to_el1 worker_process e s)) × ((rank p' ≡ suc (rank p))
        ⊎ ((rank p' ≡ rank p) × (turn p' ≡ turn p) × (e ≢ turn p)))

  module _ (small : core ≤ 3) (entry : va_to_pa jump_to_el1 ≢ null) where
    step-Moves : (e : Event) (s : Handoff) (p : Phase s) → Moves e s p
    unfolding step
    step-Moves call s in_table =
        rw (ltb-le max_remote_core_id core small) (in_table, inr (refl, refl, λ q. cc))
    step-Moves call s (in_function e n) =
        rw (ltb-le max_remote_core_id core small) (in_function e n, inr (refl, refl, λ q. cc))
    step-Moves call s (in_release e n) =
        rw (ltb-le max_remote_core_id core small) (in_release e n, inr (refl, refl, λ q. cc))
    step-Moves call s (parked e n) =
        rw (ltb-le max_remote_core_id core small) (taken e n, inl (omega arith))
    step-Moves call s (taken e n) = (ready n, inl (omega arith))
    step-Moves call s (ready n) = (handed n, inl (omega arith))
    step-Moves call s (handed n) =
        rw (ltb-le max_remote_core_id core small) (handed n, inr (refl, refl, λ q. cc))
    step-Moves park_and_wait s in_table =
        rw (ne→== (va_to_pa jump_to_el1) null entry)
          (in_function (va_to_pa jump_to_el1) 0, inl refl)
    step-Moves park_and_wait s (in_function e n) = (in_release e n, inl (omega arith))
    step-Moves park_and_wait s (in_release e n) = (parked e n, inl (omega arith))
    step-Moves park_and_wait s (parked e n) = (parked e n, inr (refl, refl, λ q. cc))
    step-Moves park_and_wait s (taken e n) = (taken e n, inr (refl, refl, λ q. cc))
    step-Moves park_and_wait s (ready n) = (ready n, inr (refl, refl, λ q. cc))
    step-Moves park_and_wait s (handed n) = (in_function worker_process (suc n), inl (omega arith))

    -- In any steps the phase only goes on, and it does when they have one of the party whose turn it is.
    run-Moves :
        (es : List Event) (s : Handoff) (p : Phase s)
        → (p' : Phase (run core jump_to_el1 worker_process es s)) × (rank p ≤ rank p')
          × (Has (turn p) es → rank p < rank p')
    unfolding run
    run-Moves [] s p = (p, omega arith, λ h. absurd h)
    run-Moves (e ∷ es) s p =
        let (q, moved) = step-Moves e s p in
        let (p', le, lt) = run-Moves es (step core jump_to_el1 worker_process e s) q in
        elim moved [
          | inl up ↦ (p', omega arith, λ h. omega arith)
          | inr (still, same, ne) ↦ (
            p',
            omega arith,
            λ h. elim h [
              | inl here ↦ absurd (ne here)
              | inr there ↦ let l = lt (subst (λ t. Has t es) (sym same) there) in omega arith
            ],
          )
        ]

    set_up-Phase : Phase (set_up core jump_to_el1 worker_process)
    unfolding step
    set_up-Phase = rw (ltb-le max_remote_core_id core small) in_table

  -- What the phases have in common
  abbrev pub InOrder : Handoff → Type 0
  InOrder s =
      ((s.started ≡ calls core jump_to_el1 worker_process s.asked)
        ⊎ ((calls core jump_to_el1 worker_process s.asked ≡ worker_process ∷ s.started)
            × (s.exec_addr ≡ worker_process)
            × (s.remote ≡ waiting)
            × (s.caller ≡ idle)))
      × ((s.remote ≡ waiting) ⊎ (s.caller ≡ idle))

  Phase-InOrder : (s : Handoff) → Phase s → InOrder s
  Phase-InOrder s in_table = (inl refl, inr refl)
  Phase-InOrder s (in_function e n) = (inl refl, inr refl)
  Phase-InOrder s (in_release e n) = (inl refl, inr refl)
  Phase-InOrder s (parked e n) = (inl refl, inl refl)
  Phase-InOrder s (taken e n) = (inl refl, inl refl)
  Phase-InOrder s (ready n) = (inl refl, inl refl)
  Phase-InOrder s (handed n) = (inr (refl, refl, refl, refl), inl refl)

  -- The core number is at most 3, the address of `jump_to_EL1` is not 0, and the core starts only
  -- after `__setup_core` has returned. Then after any sequence of steps, `__park_and_wait` has called
  -- `worker_process` once for each call of `__run_core` that has returned, and nothing else, but for
  -- the last call: its address may still stand in the spin table, while the core waits and no other
  -- call is under way. While the core does not wait, no call is under way.
  pub run-InOrder :
      core ≤ 3
      → va_to_pa jump_to_el1 ≢ null
      → (es : List Event)
      → InOrder (run core jump_to_el1 worker_process es (set_up core jump_to_el1 worker_process))
  run-InOrder small entry es =
      let m =
        run-Moves small entry es (set_up core jump_to_el1 worker_process)
          (set_up-Phase small entry) in
      Phase-InOrder
        (run core jump_to_el1 worker_process es (set_up core jump_to_el1 worker_process)) m.0
