-- ===== src/Sched/Init.antt =====
-- The tasks that src/kernel/sched.c defines: task 0 as it is initialised, and the work of the others.
use bless_os.Prelude.{ℕ, ◌+◌, ◌*◌, ◌%◌, List, [], ◌∷◌, get_or, Outcome, u32_mod}
use bless_os.Prelude.Ram.{Ram}
use bless_os.Sched.{Task, Sched, ts_running, initial_prio, put_task, first_ldt, sleep_on}

abbrev pub data_sel : ℕ
data_sel = 0x10

abbrev pub user_data_sel : ℕ
user_data_sel = 0x0C

abbrev pub user_code_sel : ℕ
user_code_sel = 0x04

-- `LDT(n)`; `first_ldt` has the shift by 3 in it.
abbrev pub ldt_sel : ℕ → ℕ
ldt_sel n = n * 16 + first_ldt

-- The words of `tss`, with `task0_stack0` at `stack0` and `pg_dir` at `pg_dir`.
abbrev pub tss_words : (stack0 pg_dir : ℕ) → List ℕ
tss_words stack0 pg_dir =
    0
    ∷ ((stack0 + 4096) % u32_mod)
    ∷ data_sel
    ∷ 0
    ∷ 0
    ∷ 0
    ∷ 0
    ∷ pg_dir
    ∷ 0
    ∷ 0
    ∷ 0
    ∷ 0
    ∷ 0
    ∷ 0
    ∷ 0
    ∷ 0
    ∷ 0
    ∷ 0
    ∷ user_data_sel
    ∷ user_code_sel
    ∷ user_data_sel
    ∷ user_data_sel
    ∷ user_data_sel
    ∷ user_data_sel
    ∷ ldt_sel 0
    ∷ 0
    ∷ []

abbrev pub initial_task : (stack0 pg_dir : ℕ) → Task
initial_task stack0 pg_dir = record {
  tss = λ (i : ℕ). get_or (tss_words stack0 pg_dir) i 0;
  tss_entry = (0, 0);
  priority = initial_prio;
  signal = 0;
  signal_handler = λ (i : ℕ). 0;
  state = ts_running;
  ldt = λ (i : ℕ). get_or (0xffff ∷ 0xcf9a00 ∷ 0xffff ∷ 0xcf9200 ∷ []) i 0;
  ldt_entry = (0, 0);
  next = 0;
}

-- The scheduler's variables before anything runs: `current` is task 0.
abbrev pub initial_sched : (task0 stack0 pg_dir : ℕ) → (ℕ → Task) → (wait gdt : Ram) → Sched
initial_sched task0 stack0 pg_dir tasks wait gdt = record {
  task0 = task0;
  task = put_task task0 (initial_task stack0 pg_dir) tasks;
  current = task0;
  wait = wait;
  gdt = gdt;
  panics = 0;
}

-- The work of task 1, which prints and sleeps on `task_suspend`; task 2 only prints.
pub task1_work : (fuel task_suspend : ℕ) → Sched → Outcome (ℕ × Sched)
task1_work fuel task_suspend s = sleep_on fuel task_suspend s
