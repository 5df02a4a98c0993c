-- ===== src/Timer/First.antt =====
-- How a task that new_task of src/kernel/sched.c has made comes to run.
use mathlib.Core.Path.{subst}
use bless_os.Prelude.{
  ℕ, ◌<◌, ◌≡◌, ◌≢◌, refl, inl, inr, some, true, false, [], ◌∷◌, ◌==◌, ◌⊎◌, Bool-cases, arith, sym,
  ap, ◌∙◌,
}
use bless_os.Prelude.Ram.{Ram}
use bless_os.Sched.Made.{Two, made_task, linked_task, new_task-Two, tss-switch_to}
use bless_os.Sched.Running.{state-switch_to, current-switch_to}
use bless_os.Sched.{Task, Sched, ts_running, ts_runable, is_runable, new_task, switch_to}
use bless_os.Sched.Init.{initial_sched}
use bless_os.Sched.Pick.{Chain, NoneAbove, IsBest}
use bless_os.Timer.{Clock, age_task, do_timer}
use bless_os.Timer.Interrupt.{Aged, do_timer-schedules}

-- The two tasks after a tick.
record Ticked (task0 task : ℕ) (second : Task) (aged : ℕ → Task) : Type 0 where
  low : (aged task0).priority ≡ 170
  first : (aged task0).state ≡ ts_running
  high : (aged task).priority ≡ 210
  second_state : (aged task).state ≡ ts_runable
  segment : (aged task).tss ≡ second.tss

Aged-Ticked :
    (task0 stack0 pg_dir task eip sp0 sp3 : ℕ) (s : Sched) (aged : ℕ → Task)
    → Two task0 task (linked_task stack0 pg_dir task) (made_task stack0 pg_dir eip sp0 sp3) s
    → Aged s (task0 ∷ task ∷ []) aged
    → Ticked task0 task (made_task stack0 pg_dir eip sp0 sp3) aged
unfolding age_task
Aged-Ticked task0 stack0 pg_dir task eip sp0 sp3 s aged x each =
    let first : aged task0 ≡ age_task (linked_task stack0 pg_dir task) =
      each task0 ∙ ground (arith, x.here) in
    let second : aged task ≡ age_task (made_task stack0 pg_dir eip sp0 sp3) =
      each task ∙ ground (arith, x.there) in
    record {
      low = ap (λ (t : Task). t.priority) first;
      first = ap (λ (t : Task). t.state) first;
      high = ap (λ (t : Task). t.priority) second;
      second_state = ap (λ (t : Task). t.state) second;
      segment = ap (λ (t : Task). t.tss) second;
    }

-- The scheduler's choice is then the new task.
chosen :
    (task0 task : ℕ) (second : Task) (s s' : Sched)
    → s.current ≡ task0
    → Ticked task0 task second s.task
    → ((s' ≡ s) × NoneAbove s.task (task0 ∷ task ∷ []) (s.task s.current).priority)
      ⊎ ((s' ≡ switch_to s'.current s)
          × IsBest s.task (task0 ∷ task ∷ []) (s.task s.current).priority s'.current)
    → s' ≡ switch_to task s
chosen task0 task second s s' at t (inl (stay, (_, (above, _)))) =
    let run : is_runable (s.task task).state ≡ true = ap is_runable t.second_state in
    let low : (s.task s.current).priority ≡ 170 = ap (λ (a : ℕ). (s.task a).priority) at ∙ t.low in
    absurd (omega (arith, above run, t.high))
chosen task0 task second s s' at t (inr (switched, best)) =
    let low : (s.task s.current).priority ≡ 170 = ap (λ (a : ℕ). (s.task a).priority) at ∙ t.low in
    let above : 170 < (s.task s'.current).priority = omega (arith, best.above) in
    let r : s'.current ≡ task = elim (Bool-cases (s'.current == task)) [
      | inl same ↦ ground (arith, same)
      | inr other ↦
          let first : s'.current ≡ task0 = ground (arith, best.listed, other) in
          let same = ap (λ (a : ℕ). (s.task a).priority) first ∙ t.low in absurd (omega arith)
    ] in
    switched ∙ ap (λ (a : ℕ). switch_to a s) r

-- From the initial state, a task that `new_task` has made runs from the first tick of the clock on: the
-- interrupt comes back, the task is then the current one and is running, task 0 waits, and the task's
-- segment has the entry and the stacks that it was made with. The task is not NULL and not task 0, and
-- the fuel is at least 3.
pub do_timer-new_task :
    (task0 stack0 pg_dir task eip sp0 sp3 fuel : ℕ) (tasks : ℕ → Task) (wait gdt : Ram) (c : Clock)
    → task0 ≢ 0
    → task ≢ 0
    → task ≢ task0
    → 2 < fuel
    → c.sched ≡ new_task task eip sp0 sp3 (initial_sched task0 stack0 pg_dir tasks wait gdt)
    → (c' : Clock) × (do_timer fuel c ≡ some c')
      × (c'.sched.current ≡ task)
      × ((c'.sched.task task).state ≡ ts_running)
      × ((c'.sched.task task0).state ≡ ts_runable)
      × ((c'.sched.task task).tss 8 ≡ eip)
      × ((c'.sched.task task).tss 1 ≡ sp0)
      × ((c'.sched.task task).tss 14 ≡ sp3)
do_timer-new_task task0 stack0 pg_dir task eip sp0 sp3 fuel tasks wait gdt c nz nz' ne enough e =
    let x =
      subst (Two task0 task (linked_task stack0 pg_dir task) (made_task stack0 pg_dir eip sp0 sp3))
        (sym e) (new_task-Two task0 stack0 pg_dir task eip sp0 sp3 tasks wait gdt nz nz' ne) in
    let chain = subst (λ (v : ℕ). Chain c.sched.task v (task0 ∷ task ∷ [])) (sym x.start) x.chain in
    let (c', aged, done, each, ticks, choice) =
      do_timer-schedules (task0 ∷ task ∷ []) fuel c chain (ground arith, (refl, tt)) enough in
    let t = Aged-Ticked task0 stack0 pg_dir task eip sp0 sp3 c.sched aged x each in
    let s : Sched = record c.sched { task = aged } in
    let at : s.current ≡ task0 = x.at in
    let same = chosen task0 task (made_task stack0 pg_dir eip sp0 sp3) s c'.sched at t choice in
    let other : (task == task0) ≡ false = ground arith in
    let segment : (c'.sched.task task).tss ≡ (made_task stack0 pg_dir eip sp0 sp3).tss =
      ap (λ (k : Sched). (k.task task).tss) same ∙ tss-switch_to task s task ∙ t.segment in
    (
      c',
      done,
      ap (λ (k : Sched). k.current) same ∙ current-switch_to task s,
      ap (λ (k : Sched). (k.task task).state) same ∙ ground (arith, state-switch_to task s task),
      ap (λ (k : Sched). (k.task task0).state) same
          ∙ ground (arith, state-switch_to task s task0, t.first, at),
      ap (λ (m : Ram). m 8) segment ∙ ground arith,
      ap (λ (m : Ram). m 1) segment ∙ ground arith,
      ap (λ (m : Ram). m 14) segment ∙ ground arith,
    )
