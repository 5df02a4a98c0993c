-- ===== src/Sched/Made.antt =====
-- The first task that new_task of src/kernel/sched.c makes, beside task 0.
use bless_os.Prelude.{ℕ, ◌≡◌, ◌≢◌, refl, false, ◌==◌, [], ◌∷◌, arith}
use bless_os.Prelude.Ram.{Ram, store}
use bless_os.Sched.{Task, Sched, ts_runable, new_task, switch_to}
use bless_os.Sched.Init.{initial_task, initial_sched}
use bless_os.Sched.Pick.{Chain}

-- The task as it is made, and task 0 with the link to it.
abbrev pub made_task : (stack0 pg_dir eip sp0 sp3 : ℕ) → Task
made_task stack0 pg_dir eip sp0 sp3 =
    let t = initial_task stack0 pg_dir in
    record t {
      tss = store (store (store (store t.tss 1 sp0) 8 eip) 14 sp3) 9 0x3202;
      state = ts_runable;
      next = 0;
    }

abbrev pub linked_task : (stack0 pg_dir task : ℕ) → Task
linked_task stack0 pg_dir task = record (initial_task stack0 pg_dir) { next = task }

pub record Two (task0 task : ℕ) (first second : Task) (s : Sched) : Type 0 where
  pub start : s.task0 ≡ task0
  pub at : s.current ≡ task0
  pub chain : Chain s.task task0 (task0 ∷ task ∷ [])
  pub here : s.task task0 ≡ first
  pub there : s.task task ≡ second

pub new_task-Two :
    (task0 stack0 pg_dir task eip sp0 sp3 : ℕ) (tasks : ℕ → Task) (wait gdt : Ram)
    → task0 ≢ 0
    → task ≢ 0
    → task ≢ task0
    → Two task0 task
        (linked_task stack0 pg_dir task)
        (made_task stack0 pg_dir eip sp0 sp3)
        (new_task task eip sp0 sp3 (initial_sched task0 stack0 pg_dir tasks wait gdt))
unfolding new_task
new_task-Two task0 stack0 pg_dir task eip sp0 sp3 tasks wait gdt nz nz' ne =
    let other : (task == task0) ≡ false = ground arith in
    let other' : (task0 == task) ≡ false = ground arith in
    record {
      start = refl;
      at = refl;
      chain = ground arith;
      here = ground arith;
      there = ground arith;
    }

pub tss-switch_to : (tmp : ℕ) (s : Sched) (a : ℕ) → ((switch_to tmp s).task a).tss ≡ (s.task a).tss
unfolding switch_to
tss-switch_to tmp s a = ground arith
