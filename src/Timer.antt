-- ===== src/Timer.antt =====
-- src/kernel/timer.c: the clock interrupt. It counts, parks the cursor and puts it back, ages the
-- tasks' priorities and calls the scheduler. The walk along the tasks runs on fuel. What `inb(0x21)`
-- reads is an argument.
pub mod Aging
pub mod Interrupt
pub mod First
use bless_os.Prelude.{
  ℕ, zero, suc, ◌+◌, ◌-◌, ◌/◌, ◌%◌, ◌^◌, bit_and, ◌==◌, leb, if◌then◌else◌, Option, none, some,
  List, add32,
}
use bless_os.Console.{Console, set_cursor, get_cursor, outb}
use bless_os.Sched.{Task, Sched, is_running, put_task, schedule}

pub record Clock : Type 0 where
  pub timer_ticks : ℕ
  pub console : Console
  pub sched : Sched
  pub pic : List (ℕ × ℕ)

-- The loop's body; `priority` is a byte, and `-= 30` is tested after it has been cut to a byte.
pub age_task : Task → Task
age_task t =
    if is_running t.state
    then (let p = (t.priority + 256 - 30) % 256 in record t { priority = if leb p 0 then 0 else p })
    else record t { priority = (t.priority + 10) % 256 }

-- `for (; v; v = v->next)`; `none`: the fuel ran out.
pub age : ℕ → (ℕ → Task) → ℕ → Option (ℕ → Task)
age zero tasks v = none
age (suc fuel) tasks v =
    let rest = age fuel (put_task v (age_task (tasks v)) tasks) (tasks v).next in
    if v == 0 then some tasks else rest

-- The cursor goes to column 71 of row 24 and back.
pub blink : Console → Console
blink con = let (x, y) = get_cursor con in set_cursor x y (set_cursor 71 24 con)

pub do_timer : ℕ → Clock → Option Clock
do_timer fuel c = elim (age fuel c.sched.task c.sched.task0) [
  | none ↦ none
  | some tasks ↦ elim (schedule fuel (record c.sched { task = tasks })) [
    | none ↦ none
    | some sched ↦ some (record {
      timer_ticks = add32 c.timer_ticks 1;
      console = blink c.console;
      sched = sched;
      pic = outb 0x20 0x20 c.pic;
    })
  ]
]

-- `timer_install`, newest write first. A division by 0 stops the machine: no writes.
pub timer_install : (hz mask : ℕ) → List (ℕ × ℕ) → Option (List (ℕ × ℕ))
timer_install hz mask sent =
    if hz == 0
    then none
    else some (
        outb (bit_and mask (0xffffffff - 0x01)) 0x21 (
          outb (1193180 / hz / 2 ^ 8) 0x40
            (outb (bit_and (1193180 / hz) 0xff) 0x40 (outb 0x36 0x43 sent))))
