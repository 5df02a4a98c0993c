-- ===== src/Sched.antt =====
-- src/kernel/sched.c, src/include/kernel/sched.h, and the descriptors of src/include/kernel/system.h: the
-- tasks and the scheduler. A pointer is an address, with 0 for NULL; `task` gives the structure at
-- an address, `wait` the task pointer at an address (the variables that `sleep_on` is handed), and
-- `gdt` the bytes of the descriptor table. The walk along `next` runs on fuel.
pub mod Desc
pub mod Pick
pub mod Running
pub mod Starve
pub mod Init
pub mod Made
use bless_os.Prelude.{
  ℕ, zero, suc, ◌+◌, ◌-◌, ◌*◌, ◌/◌, ◌%◌, ◌^◌, bit_and, Bool, true, false, not, ltb, ◌==◌, ◌&&◌,
  if◌then◌else◌, Option, none, some, Outcome, ok, halted, fault, ◌>>=◌, u32_mod,
}
use bless_os.Prelude.Ram.{Ram, store}

-- `enum TASK_STATE`
pub data TaskState : Type 0 where
  ts_running ts_runable ts_stopped ts_uninterruptible ts_interruptible : TaskState

abbrev pub is_running : TaskState → Bool
is_running ts_running = true
is_running _ = false

abbrev pub is_runable : TaskState → Bool
is_runable ts_runable = true
is_runable _ = false

-- `struct desc_struct`: the words `a` and `b`.
abbrev pub Descriptor : Type 0
Descriptor = ℕ × ℕ

-- `struct task_struct`. The 26 words of `tss`, the `signal_handler`s and the `ldt` are by index.
pub record Task : Type 0 where
  pub tss : Ram
  pub tss_entry : Descriptor
  pub priority : ℕ
  pub signal : ℕ
  pub signal_handler : Ram
  pub state : TaskState
  pub ldt : Ram
  pub ldt_entry : Descriptor
  pub next : ℕ

pub record Sched : Type 0 where
  pub task0 : ℕ
  pub task : ℕ → Task
  pub current : ℕ
  pub wait : Ram
  pub gdt : Ram
  pub panics : ℕ

abbrev pub put_task : ℕ → Task → (ℕ → Task) → ℕ → Task
put_task a t tasks b = if a == b then t else tasks b

-- `FIRST_TSS_SEL` and `FIRST_LDT_SEL`, as byte offsets in the table.
abbrev pub first_tss : ℕ
first_tss = 4 * 8

abbrev pub first_ldt : ℕ
first_ldt = 5 * 8

abbrev pub word_at : Ram → ℕ → ℕ
word_at m a = m a + 256 * m (a + 1) + 65536 * m (a + 2) + 16777216 * m (a + 3)

abbrev pub desc_at : Ram → ℕ → Descriptor
desc_at m a = (word_at m a, word_at m (a + 4))

-- Byte 1 is not written.
pub set_tss_ldt_desc : ℕ → ℕ → ℕ → Ram → Ram
set_tss_ldt_desc dest addr type m =
    store
      (store
        (store
          (store
            (store (store (store m dest 0x68) (dest + 2) (bit_and addr 0xff)) (dest + 3)
              (bit_and (addr / 2 ^ 8) 0xff))
            (dest + 4) (bit_and (addr / 2 ^ 16) 0xff))
          (dest + 5) type)
        (dest + 6) 0)
      (dest + 7) (bit_and (addr / 2 ^ 24) 0xff)

-- `set_tss_desc` and `set_ldt_desc`. In `struct task_struct` the `tss` stands first and the `ldt` at
-- offset 252.
abbrev pub set_tss_desc : ℕ → Ram → Ram
set_tss_desc task m = set_tss_ldt_desc first_tss task 0x89 m

abbrev pub set_ldt_desc : ℕ → Ram → Ram
set_ldt_desc task m = set_tss_ldt_desc first_ldt ((task + 252) % u32_mod) 0x82 m

-- INITIAL_PRIO
abbrev pub initial_prio : ℕ
initial_prio = 200

-- `new_task`: the structure is copied from `task0` and linked in behind the current task. The indices
-- in `tss` are those of `esp0`, `eip`, `esp` and `eflags`.
pub new_task : ℕ → ℕ → ℕ → ℕ → Sched → Sched
new_task task eip sp0 sp3 s =
    let copy = s.task s.task0 in
    let made = record copy {
      tss = store (store (store (store copy.tss 1 sp0) 8 eip) 14 sp3) 9 0x3202;
      priority = initial_prio;
      state = ts_runable;
      next = (put_task task copy s.task s.current).next;
    } in
    let tasks = put_task task made s.task in
    record s { task = put_task s.current (record (tasks s.current) { next = task }) tasks }

-- The loop of `schedule`, from `v` on with the choice `tmp` so far; `none`: the fuel ran out.
unfoldable pub pick : ℕ → (ℕ → Task) → (v tmp cp : ℕ) → Option ℕ
pick zero tasks v tmp cp = none
pick (suc fuel) tasks v tmp cp =
    let t = tasks v in
    let better = is_runable t.state && ltb cp t.priority in
    let rest =
      pick fuel tasks t.next (if better then v else tmp) (if better then t.priority else cp) in
    if v == 0 then some tmp else rest

-- The task that is switched away from.
abbrev pub leave : Ram → Task → Task
leave gdt t = record t {
  tss_entry = desc_at gdt first_tss;
  ldt_entry = desc_at gdt first_ldt;
  state = if is_running t.state then ts_runable else t.state;
}

-- The switch to `tmp`, up to the far jump that makes the processor follow.
pub switch_to : ℕ → Sched → Sched
switch_to tmp s =
    let gdt₁ = set_tss_desc tmp s.gdt in
    let gdt₂ = set_ldt_desc tmp gdt₁ in
    let tasks = put_task s.current (leave s.gdt (s.task s.current)) s.task in
    let entered = record (tasks tmp) {
      tss_entry = desc_at gdt₁ first_tss;
      ldt_entry = desc_at gdt₂ first_ldt;
      state = ts_running;
    } in
    record s { task = put_task tmp entered tasks; current = tmp; gdt = gdt₂ }

unfoldable pub schedule : ℕ → Sched → Option Sched
schedule fuel s = elim (pick fuel s.task s.task0 0 (s.task s.current).priority) [
  | none ↦ none
  | some tmp ↦ some (if tmp == 0 then s else if tmp == s.current then s else switch_to tmp s)
]

-- The writes of `sleep_on` before it calls `schedule`.
pub enqueue : ℕ → Sched → Sched
enqueue queue s = record s {
  wait = store s.wait queue s.current;
  task =
      put_task s.current (record (s.task s.current) { state = ts_uninterruptible; priority = 0 })
        s.task;
}

-- `sleep_on` up to where `schedule` gives the processor away, with the local `tmp`; `resume` is what
-- the task does when it runs again.
pub sleep_on : ℕ → ℕ → Sched → Outcome (ℕ × Sched)
sleep_on fuel queue s =
    if queue == 0
    then ok (0, record s { panics = s.panics + 1 })
    else if s.current == s.task0
    then halted
    else elim (schedule fuel (enqueue queue s)) [ none ↦ fault | some s' ↦ ok (s.wait queue, s') ]

abbrev pub set_running : ℕ → Sched → Sched
set_running a s = record s { task = put_task a (record (s.task a) { state = ts_running }) s.task }

pub resume : ℕ → Sched → Sched
resume tmp s = if tmp == 0 then s else set_running tmp s

unfoldable pub wake_up : ℕ → Sched → Sched
wake_up queue s =
    if queue == 0
    then s
    else if s.wait queue == 0
    then s
    else record (set_running (s.wait queue) s) { wait = store s.wait queue 0 }

-- `sched_init`, up to the two instructions that load the selectors.
pub sched_init : Sched → Sched
sched_init s = record s { gdt = set_ldt_desc s.task0 (set_tss_desc s.task0 s.gdt) }
