-- ===== src/Timer/Interrupt.antt =====
-- The whole clock interrupt of src/kernel/timer.c, and its set-up.
use bless_os.Prelude.{
  has, Distinct, ℕ, ◌+◌, ◌*◌, ◌/◌, ◌%◌, ◌≤◌, ◌<◌, ◌≡◌, ◌⊎◌, refl, some, List, ◌∷◌, length, false,
  ◌==◌, if◌then◌else◌, arith, add32, u32_mod, bit_and,
}
use bless_os.Prelude.Bits.{and_0xff}
use bless_os.Console.{Console, set_cursor, get_cursor, outb}
use bless_os.Console.Bounds.{InScreen}
use bless_os.Console.Cursor.{Synced, set_cursor-Synced}
use bless_os.Sched.{Task, Sched, switch_to}
use bless_os.Sched.Pick.{Chain, NoneAbove, IsBest, schedule-picks}
use bless_os.Timer.{Clock, age_task, blink, do_timer, timer_install}
use bless_os.Timer.Aging.{age-listed, next-age_task, Chain-next}

-- With the cursor on the screen, the clock leaves the cursor and the screen as they were, and the
-- display controller told of the cursor.
pub blink-Synced :
    (con : Console)
    → InScreen con
    → (get_cursor (blink con) ≡ get_cursor con) × ((blink con).vram ≡ con.vram) × Synced (blink con)
unfolding blink set_cursor
blink-Synced con v =
    (refl, refl, set_cursor-Synced con.csr_x con.csr_y (set_cursor 71 24 con) v.x_in v.y_in)

-- Every task of the list aged.
abbrev pub Aged : Sched → List ℕ → (ℕ → Task) → Type 0
Aged s ids tasks = (b : ℕ) → tasks b ≡ (if has b ids then age_task (s.task b) else s.task b)

-- If the tasks are linked in a list without repetition and the fuel is more than its length, the
-- clock interrupt comes back: it has counted the tick, aged every task of the list once and no
-- other, and scheduled over the aged priorities.
pub do_timer-schedules :
    (ids : List ℕ) (fuel : ℕ) (c : Clock)
    → Chain c.sched.task c.sched.task0 ids
    → Distinct ids
    → length ids < fuel
    → (c' : Clock) × (tasks : ℕ → Task) × (do_timer fuel c ≡ some c')
      × Aged c.sched ids tasks
      × (c'.timer_ticks ≡ (c.timer_ticks + 1) % u32_mod)
      × (let s = record c.sched { task = tasks } in
          ((c'.sched ≡ s) × NoneAbove tasks ids (tasks s.current).priority)
          ⊎ ((c'.sched ≡ switch_to c'.sched.current s)
              × IsBest tasks ids (tasks s.current).priority c'.sched.current))
unfolding do_timer
do_timer-schedules ids fuel c chain distinct h =
    let (tasks, aged, each) = age-listed ids fuel c.sched.task c.sched.task0 chain distinct h in
    let chain' =
      Chain-next c.sched.task tasks c.sched.task0 ids
        (λ b. ground (arith, each b, next-age_task (c.sched.task b))) chain in
    let (s', done, choice) = schedule-picks ids fuel (record c.sched { task = tasks }) chain' h in
    (
      record {
        timer_ticks = add32 c.timer_ticks 1;
        console = blink c.console;
        sched = s';
        pic = outb 0x20 0x20 c.pic;
      },
      tasks,
      rw (aged, do_timer, done) refl,
      each,
      refl,
      choice,
    )

divisor-lt : (hz : ℕ) → 19 ≤ hz → 1193180 / hz < 65536
divisor-lt hz h = grind arith

-- From 19 Hz on, the two bytes that go to port 0x40 are the low and the high byte of the whole
-- divisor.
pub timer_install-divisor :
    (hz mask : ℕ) (sent : List (ℕ × ℕ))
    → 19 ≤ hz
    → (low high m : ℕ) × (timer_install hz mask sent
        ≡ some ((m, 0x21) ∷ (high, 0x40) ∷ (low, 0x40) ∷ (0x36, 0x43) ∷ sent))
      × (high * 256 + low ≡ 1193180 / hz)
unfolding timer_install
timer_install-divisor hz mask sent h =
    let fits : 1193180 / hz < 65536 = divisor-lt hz h in
    let running : (hz == 0) ≡ false = ground arith in
    (
      1193180 / hz % 256,
      1193180 / hz / 256,
      bit_and mask 0xfffffffe % 256,
      rw (running, timer_install, and_0xff (1193180 / hz)) (ground arith),
      omega arith,
    )
