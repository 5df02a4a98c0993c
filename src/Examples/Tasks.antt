-- ===== src/Examples/Tasks.antt =====
-- Tasks, the scheduler and the clock.
use bless_os.Prelude.{
  Distinct, ℕ, ◌+◌, ◌%◌, ◌≡◌, ◌≢◌, ◌⊎◌, refl, some, List, [], ◌∷◌, arith, ◌==◌, if◌then◌else◌,
  u32_mod,
}
use bless_os.Prelude.Ram.{Ram}
use bless_os.Sched.{
  TaskState, ts_running, ts_runable, ts_uninterruptible, Task, Sched, schedule, switch_to, wake_up,
  new_task, pick,
}
use bless_os.Sched.Pick.{Chain, NoneAbove, IsBest, schedule-picks}
use bless_os.Sched.Running.{OnlyCurrent, schedule-OnlyCurrent}
use bless_os.Sched.Starve.{here, next, yields, wake_up-never_current}
use bless_os.Timer.{Clock, do_timer}
use bless_os.Sched.Init.{initial_sched}
use bless_os.Timer.First.{do_timer-new_task}
use bless_os.Timer.Interrupt.{Aged, do_timer-schedules}

abbrev zeros : Ram
zeros a = 0

abbrev a_task : TaskState → ℕ → ℕ → Task
a_task state priority link = record {
  tss = zeros;
  tss_entry = (0, 0);
  priority = priority;
  signal = 0;
  signal_handler = zeros;
  state = state;
  ldt = zeros;
  ldt_entry = (0, 0);
  next = link;
}

-- Task 100 runs, task 200 can run above it, and task 300 sleeps on the queue at 8.
abbrev tasks : ℕ → Task
tasks a =
    if a == 100
    then a_task ts_running 50 200
    else if a == 200
    then a_task ts_runable 120 300
    else a_task ts_uninterruptible 0 0

abbrev three : Sched
three = record {
  task0 = 100;
  task = tasks;
  current = 100;
  wait = λ a. if a == 8 then 300 else 0;
  gdt = zeros;
  panics = 0;
}

abbrev ids : List ℕ
ids = 100 ∷ 200 ∷ 300 ∷ []

three-Chain : Chain three.task three.task0 ids
three-Chain = (refl, omega arith, (refl, omega arith, (refl, omega arith, refl)))

three-Distinct : Distinct ids
three-Distinct = (refl, (refl, (refl, tt)))

schedule-picks_example :
    (s' : Sched) × (schedule 4 three ≡ some s')
    × (((s' ≡ three) × NoneAbove tasks ids 50)
        ⊎ ((s' ≡ switch_to s'.current three) × IsBest tasks ids 50 s'.current))
schedule-picks_example = schedule-picks ids 4 three three-Chain (omega arith)

three-OnlyCurrent : OnlyCurrent three
three-OnlyCurrent a e = ground arith

scheduled : schedule 4 three ≡ some (switch_to 200 three)
unfolding schedule pick
scheduled = refl

woken_scheduled : schedule 4 (wake_up 8 three) ≡ some (switch_to 200 (wake_up 8 three))
unfolding schedule pick wake_up
woken_scheduled = refl

schedule-OnlyCurrent_example : OnlyCurrent (switch_to 200 three)
schedule-OnlyCurrent_example =
    schedule-OnlyCurrent 4 three {s' = switch_to 200 three} scheduled three-OnlyCurrent

wake_up-never_current_example : three.wait 8 ≢ (switch_to 200 (wake_up 8 three)).current
wake_up-never_current_example =
    wake_up-never_current 8 three {s' = switch_to 200 (wake_up 8 three)} (omega arith) (omega arith)
      (omega arith) (next here (yields 4 woken_scheduled))

abbrev clock : Clock
clock = record {
  timer_ticks = 0xffffffff;
  console = record { csr_x = 3; csr_y = 4; vram = zeros; ports = [] };
  sched = three;
  pic = [];
}

do_timer-schedules_example :
    (c' : Clock) × (aged : ℕ → Task) × (do_timer 4 clock ≡ some c')
    × Aged three ids aged
    × (c'.timer_ticks ≡ (0xffffffff + 1) % u32_mod)
    × (((c'.sched ≡ record three { task = aged }) × NoneAbove aged ids (aged 100).priority)
        ⊎ ((c'.sched ≡ switch_to c'.sched.current (record three { task = aged }))
            × IsBest aged ids (aged 100).priority c'.sched.current))
do_timer-schedules_example = do_timer-schedules ids 4 clock three-Chain three-Distinct (omega arith)

abbrev first_clock : Clock
first_clock = record clock {
  sched = new_task 200 0x4000 0x5000 0x6000 (initial_sched 100 0x8000 0 tasks zeros zeros);
}

do_timer-new_task_example :
    (c' : Clock) × (do_timer 3 first_clock ≡ some c')
    × (c'.sched.current ≡ 200)
    × ((c'.sched.task 200).state ≡ ts_running)
    × ((c'.sched.task 100).state ≡ ts_runable)
    × ((c'.sched.task 200).tss 8 ≡ 0x4000)
    × ((c'.sched.task 200).tss 1 ≡ 0x5000)
    × ((c'.sched.task 200).tss 14 ≡ 0x6000)
do_timer-new_task_example =
    do_timer-new_task 100 0x8000 0 200 0x4000 0x5000 0x6000 3 tasks zeros zeros first_clock
      (omega arith) (omega arith) (omega arith) (omega arith) refl
