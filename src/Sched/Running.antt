-- ===== src/Sched/Running.antt =====
-- The state TS_RUNNING under schedule of src/kernel/sched.c.
use bless_os.Prelude.{
  ℕ, zero, suc, ◌≡◌, sym, ◌⊎◌, inl, inr, refl, some, true, false, ◌==◌, if◌then◌else◌, arith,
  Bool-cases, Option-cases, eq_of_some, ◌&&◌, ltb,
}
use bless_os.Sched.{
  Task, Sched, TaskState, ts_running, ts_runable, is_running, is_runable, switch_to, schedule, pick,
}

abbrev pub OnlyCurrent : Sched → Type 0
OnlyCurrent s = (a : ℕ) → is_running (s.task a).state ≡ true → a ≡ s.current

not-running-left : (st : TaskState) → is_running (if is_running st then ts_runable else st) ≡ false
not-running-left ts_running = refl
not-running-left _ = refl

-- The states after a switch.
pub state-switch_to :
    (tmp : ℕ) (s : Sched) (a : ℕ)
    → ((switch_to tmp s).task a).state ≡ (
        if tmp == a
        then ts_running
        else if s.current == a
        then (if is_running (s.task s.current).state then ts_runable else (s.task s.current).state)
        else (s.task a).state)
unfolding switch_to
state-switch_to tmp s a = ground arith

pub current-switch_to : (tmp : ℕ) (s : Sched) → (switch_to tmp s).current ≡ tmp
unfolding switch_to
current-switch_to tmp s = refl

switch_to-OnlyCurrent : (tmp : ℕ) (s : Sched) → OnlyCurrent s → OnlyCurrent (switch_to tmp s)
switch_to-OnlyCurrent tmp s only a runs = ground (
  arith,
  state-switch_to tmp s a,
  current-switch_to tmp s,
  not-running-left (s.task s.current).state,
  only a,
)

-- What the loop returns is what it was given or a task that can run.
pick-runable :
    (fuel : ℕ) (tasks : ℕ → Task) (v tmp cp : ℕ) {r : ℕ}
    → pick fuel tasks v tmp cp ≡ some r
    → (r ≡ tmp) ⊎ (is_runable (tasks r).state ≡ true)
unfolding pick
pick-runable zero tasks v tmp cp e = cc
pick-runable (suc n) tasks v tmp cp {r} e = elim (Bool-cases (v == 0)) [
  | inl ends ↦ ground arith
  | inr goes ↦ elim (Bool-cases (is_runable (tasks v).state && ltb cp (tasks v).priority)) [
    | inl better ↦ ground (arith, pick-runable n tasks (tasks v).next v (tasks v).priority {r = r})
    | inr worse ↦ ground (arith, pick-runable n tasks (tasks v).next tmp cp {r = r})
  ]
]

-- What `schedule` can come to.
pub data Scheduled (s : Sched) : Sched → Type 0 where
  stays : {s' : Sched} → s' ≡ s → Scheduled s s'
  switches :
      {s' : Sched} (tmp : ℕ)
      → s' ≡ switch_to tmp s
      → is_runable (s.task tmp).state ≡ true
      → Scheduled s s'

pub schedule-Scheduled :
    (fuel : ℕ) (s : Sched) {s' : Sched} → schedule fuel s ≡ some s' → Scheduled s s'
unfolding schedule
schedule-Scheduled fuel s {s'} e =
    elim (Option-cases (pick fuel s.task s.task0 0 (s.task s.current).priority)) [
      | inl out ↦ absurd (cc (rw (out, schedule) at e))
      | inr (tmp, got) ↦ elim (Bool-cases (tmp == 0)) [
        | inl nothing ↦ stays (sym (eq_of_some (rw (got, schedule, nothing) at e)))
        | inr one ↦ elim (Bool-cases (tmp == s.current)) [
          | inl same ↦ stays (sym (eq_of_some (rw (got, schedule, one, same) at e)))
          | inr other ↦
              switches tmp (sym (eq_of_some (rw (got, schedule, one, other) at e)))
                (ground (arith, pick-runable fuel s.task s.task0 0 (s.task s.current).priority got))
        ]
      ]
    ]

-- If no task but the current one is TS_RUNNING and `schedule` returns, then no task but the one
-- that is current afterwards is TS_RUNNING.
pub schedule-OnlyCurrent :
    (fuel : ℕ) (s : Sched) {s' : Sched} → schedule fuel s ≡ some s' → OnlyCurrent s → OnlyCurrent s'
schedule-OnlyCurrent fuel s e only = go (schedule-Scheduled fuel s e)
  where
    go : {s' : Sched} → Scheduled s s' → OnlyCurrent s'
    go (stays same) = rw same only
    go (switches tmp same run) = rw same (switch_to-OnlyCurrent tmp s only)
