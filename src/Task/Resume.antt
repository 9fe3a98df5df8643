-- ===== src/Task/Resume.antt =====
-- `sched_switch`: the registers of the task that is switched in, and the flag `resume`.
use hob_os.Base.{
  ℕ, zero, suc, ◌+◌, ◌-◌, ◌*◌, ◌<◌, ◌≡◌, ◌≢◌, refl, sym, ap, ◌∙◌, true, false, ◌||◌, ltb,
  if◌then◌else◌, update, ne→==, eq→==, arith,
}
use native.Mathlib.Decide.{dec_lt}
use hob_os.Base.Run.{◌>>◌, Ends, ends, after, weaken}
use hob_os.Task.{Ptr, null, Ctxt, Task, Kernel, store_word}
use hob_os.Task.Access.{load-ok, store-ok, load_ctxt-ok, store_ctxt-ok}
use hob_os.Task.Threads.{kthread_start, is_running}
use hob_os.Task.Switch.{save_regs, restore_regs, ctxt_word, sched_switch}

-- The registers x19 and on stand as words at `sp`, and nothing else changed.
record Saved (n : ℕ) (sp : Ptr) (s t : Kernel) : Type 0 where
  word : ℕ → ℕ
  same : t ≡ record s { word = word }
  saved : (i : ℕ) → i < n → word (sp + 8 * i) ≡ s.cpu.x (19 + i)
  others : (a : ℕ) → ((i : ℕ) → i < n → a ≢ sp + 8 * i) → word a ≡ s.word a

save_regs-Saved : (n : ℕ) (sp : Ptr) (s : Kernel) → Ends (λ _ t. Saved n sp s t) (save_regs n sp s)
unfolding save_regs store_word
save_regs-Saved zero sp s = ends (record {
  word = s.word;
  same = refl;
  saved = λ i h. absurd (omega arith);
  others = λ a h. refl;
})
save_regs-Saved (suc n) sp s =
    let s1 : Kernel = record s { word = update s.word (sp + 8 * n) (s.cpu.x (19 + n)) } in
    weaken (save_regs-Saved n sp s1) λ _ t k.
      let last : k.word (sp + 8 * n) ≡ s.cpu.x (19 + n) =
        k.others (sp + 8 * n) (λ i h. omega arith)
        ∙ rw (eq→== (sp + 8 * n) (sp + 8 * n) refl) refl in
      record {
        word = k.word;
        same = k.same;
        saved = λ i h. elim (dec_lt i n) [
          | yes l ↦ k.saved i l
          | no l ↦ let e : i ≡ n = omega arith in rw e last
        ];
        others = λ a h.
            k.others a (λ i l. h i (omega arith))
            ∙ rw (ne→== a (sp + 8 * n) (h n (omega arith))) refl;
      }

-- Two tasks with their contexts; `prev` was not switched in, and `next` has run before.
module _ (ret_from_fork : Ptr) (prev next : Ptr) (s : Kernel) (np : prev ≢ null) (nn : next ≢ null)
    (apart : prev ≢ next) (ncp : (s.task prev).ctxt ≢ null) (ncn : (s.task next).ctxt ≢ null)
    (ctxts : (s.task prev).ctxt ≢ (s.task next).ctxt) (fresh : (s.task prev).resume ≡ false)
    (running : (s.task next).running ≡ true) where
  abbrev prev_ctxt : Ptr
  prev_ctxt = (s.task prev).ctxt

  abbrev next_ctxt : Ptr
  next_ctxt = (s.task next).ctxt

  -- The state behind the switch, with the words of the stack
  abbrev before_restore : (ℕ → ℕ) → Kernel
  before_restore word = record s {
    ctxt =
        update s.ctxt prev_ctxt
          (record (s.ctxt prev_ctxt) { sp = s.cpu.sp; spsr = s.cpu.spsr_el1 });
    word = word;
    task = update s.task next (record (s.task next) { running = true; resume = true });
  }

  abbrev restored : (ℕ → ℕ) → Kernel
  restored word =
      let b = before_restore word in
      record b {
        cpu = record s.cpu {
          x = λ r. if ltb r 19 || ltb 30 r then s.cpu.x r else ctxt_word b next_ctxt (r - 19);
          spsr_el1 = (b.ctxt next_ctxt).spsr;
          sp = (b.ctxt next_ctxt).sp;
        };
      }

  record Switched (t : Kernel) : Type 0 where
    word : ℕ → ℕ
    saved : (i : ℕ) → i < 12 → word (s.cpu.sp + 8 * i) ≡ s.cpu.x (19 + i)
    same : t ≡ restored word

  sched_switch-Switched : Ends (λ _ t. Switched t) (sched_switch ret_from_fork prev next s)
  unfolding sched_switch kthread_start is_running restore_regs
  sched_switch-Switched =
      rw (load-ok s prev np, load_ctxt-ok s prev_ctxt ncp, store_ctxt-ok s prev_ctxt ncp _)
        (after (save_regs-Saved 12 s.cpu.sp _) λ _ t k.
          rw
            (
              k.same,
              load-ok _ prev np,
              fresh,
              load-ok _ next nn,
              store-ok _ next nn _,
              ne→== next null nn,
              load-ok _ next nn,
              eq→== next next refl,
              running,
              load-ok _ next nn,
              eq→== next next refl,
              load_ctxt-ok _ next_ctxt ncn,
            )
            (ends (record { word = k.word; saved = k.saved; same = refl })))

  next_kept : (word : ℕ → ℕ) → (before_restore word).ctxt next_ctxt ≡ s.ctxt next_ctxt
  next_kept word = rw (ne→== next_ctxt prev_ctxt (λ e. ctxts (sym e))) refl

  -- Two tasks with different contexts; `prev` does not have `resume` set, `next` has run before.
  -- `sched_switch` from `prev` to `next` ends, and has stored x19 to x30 at the stack pointer, which
  -- the context of `prev` now holds; but x19 to x24 get the six fields of the context of `next`, and
  -- not what is stored at the stack pointer that this context holds.
  pub sched_switch-fields :
      Ends
        (λ _ t.
          ((i : ℕ) → i < 12 → t.word (s.cpu.sp + 8 * i) ≡ s.cpu.x (19 + i))
          × ((t.ctxt prev_ctxt).sp ≡ s.cpu.sp)
          × (t.cpu.sp ≡ (s.ctxt next_ctxt).sp)
          × (t.cpu.x 19 ≡ (s.ctxt next_ctxt).sp)
          × (t.cpu.x 20 ≡ (s.ctxt next_ctxt).spsr)
          × (t.cpu.x 21 ≡ (s.ctxt next_ctxt).x)
          × (t.cpu.x 22 ≡ (s.ctxt next_ctxt).pad)
          × (t.cpu.x 23 ≡ (s.ctxt next_ctxt).elr)
          × (t.cpu.x 24 ≡ (s.ctxt next_ctxt).used_kmem))
        (sched_switch ret_from_fork prev next s)
  unfolding ctxt_word
  sched_switch-fields = weaken sched_switch-Switched λ _ t k.
      let n = next_kept k.word in
      rw k.same (
        k.saved,
        rw (eq→== prev_ctxt prev_ctxt refl) refl,
        ap Ctxt.sp n,
        ap Ctxt.sp n,
        ap Ctxt.spsr n,
        ap Ctxt.x n,
        ap Ctxt.pad n,
        ap Ctxt.elr n,
        ap Ctxt.used_kmem n,
      )
