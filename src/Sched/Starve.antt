-- ===== src/Sched/Starve.antt =====
-- What the steps of src/kernel/sched.c do to a task that `wake_up` has woken.
use bless_os.Prelude.{ℕ, ◌≡◌, ◌≢◌, ◌==◌, some, ok, arith, inl, inr, Bool-cases, Option-cases}
use bless_os.Prelude.{ap, ◌∙◌, eq_of_ok}
use bless_os.Sched.{Sched, ts_running, schedule, enqueue, sleep_on, resume, wake_up}
use bless_os.Sched.Running.{
  Scheduled, stays, switches, schedule-Scheduled, state-switch_to, current-switch_to,
}

-- The task is not current, and its state is TS_RUNNING.
pub record IsStranded (a : ℕ) (s : Sched) : Type 0 where
  pub other : a ≢ s.current
  pub state : (s.task a).state ≡ ts_running

-- The steps of the scheduler: priorities change (the timer), `schedule` runs, the current task goes to
-- sleep, a task goes on behind its `sleep_on`, or a queue is woken.
pub data Step (s : Sched) : Sched → Type 0 where
  age :
      {s' : Sched}
      → s'.current ≡ s.current
      → ((a : ℕ) → (s'.task a).state ≡ (s.task a).state)
      → Step s s'
  yields : {s' : Sched} (fuel : ℕ) → schedule fuel s ≡ some s' → Step s s'
  sleeps : {s' : Sched} (fuel queue tmp : ℕ) → sleep_on fuel queue s ≡ ok (tmp, s') → Step s s'
  resumes : {s' : Sched} (tmp : ℕ) → s' ≡ resume tmp s → Step s s'
  wakes : {s' : Sched} (queue : ℕ) → s' ≡ wake_up queue s → Step s s'

pub data Steps (s : Sched) : Sched → Type 0 where
  here : Steps s s
  next : {t u : Sched} → Steps s t → Step t u → Steps s u

Scheduled-IsStranded :
    (a : ℕ) (s : Sched) {s' : Sched} → Scheduled s s' → IsStranded a s → IsStranded a s'
Scheduled-IsStranded a s (stays same) x = rw same x
Scheduled-IsStranded a s (switches tmp same run) x = rw same (record {
  other = ground (arith, x.other, x.state, run, current-switch_to tmp s);
  state = ground (arith, x.other, x.state, run, state-switch_to tmp s a);
})

enqueue-IsStranded : (a queue : ℕ) (s : Sched) → IsStranded a s → IsStranded a (enqueue queue s)
unfolding enqueue
enqueue-IsStranded a queue s x = record {
  other = x.other;
  state = ground (arith, x.other, x.state);
}

sleep_on-IsStranded :
    (a fuel queue tmp : ℕ) (s : Sched) {s' : Sched}
    → sleep_on fuel queue s ≡ ok (tmp, s')
    → IsStranded a s
    → IsStranded a s'
unfolding sleep_on
sleep_on-IsStranded a fuel queue tmp s {s'} e x = elim (Bool-cases (queue == 0)) [
  | inl null ↦
      let q = ap (λ r. r.1) (eq_of_ok (rw (null, sleep_on) at e)) in
      rw (← q) (record { other = x.other; state = x.state })
  | inr some_queue ↦ elim (Bool-cases (s.current == s.task0)) [
    | inl init ↦ absurd (cc (rw (some_queue, sleep_on, init) at e))
    | inr other ↦ elim (Option-cases (schedule fuel (enqueue queue s))) [
      | inl out ↦ absurd (cc (rw (some_queue, sleep_on, other, out) at e))
      | inr (s₁, done) ↦
          let q = ap (λ r. r.1) (eq_of_ok (rw (some_queue, sleep_on, other, done) at e)) in
          let slept = enqueue-IsStranded a queue s x in
          rw (← q) (
            Scheduled-IsStranded a (enqueue queue s)
              (schedule-Scheduled fuel (enqueue queue s) done) slept)
    ]
  ]
]

-- Stranded it stays, whatever the scheduler does next.
Step-IsStranded : (a : ℕ) {s s' : Sched} → Step s s' → IsStranded a s → IsStranded a s'
unfolding resume wake_up
Step-IsStranded a {s} (age c same) x = record { other = rw c x.other; state = same a ∙ x.state }
Step-IsStranded a {s} (yields fuel e) x = Scheduled-IsStranded a s (schedule-Scheduled fuel s e) x
Step-IsStranded a {s} (sleeps fuel queue tmp e) x = sleep_on-IsStranded a fuel queue tmp s e x
Step-IsStranded a {s} (resumes tmp e) x =
    rw e (record { other = ground (arith, x.other); state = ground (arith, x.state) })
Step-IsStranded a {s} (wakes queue e) x =
    rw e (record { other = ground (arith, x.other); state = ground (arith, x.state) })

-- A task that sleeps on a queue and is not current when `wake_up` wakes it does not get the
-- processor after any sequence of the steps of the scheduler: ageing, `schedule`, `sleep_on` and
-- its return, and `wake_up`.
pub wake_up-never_current :
    (queue : ℕ) (s : Sched) {s' : Sched}
    → queue ≢ 0
    → s.wait queue ≢ 0
    → s.wait queue ≢ s.current
    → Steps (wake_up queue s) s'
    → s.wait queue ≢ s'.current
unfolding wake_up
wake_up-never_current queue s ne held other steps = (go steps).other
  where
    woken : IsStranded (s.wait queue) (wake_up queue s)
    woken = record { other = ground (arith, other); state = ground arith }

    go : {t : Sched} → Steps (wake_up queue s) t → IsStranded (s.wait queue) t
    go here = woken
    go (next r st) = Step-IsStranded (s.wait queue) st (go r)
