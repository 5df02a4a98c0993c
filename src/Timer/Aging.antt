-- ===== src/Timer/Aging.antt =====
-- How do_timer of src/kernel/timer.c changes priorities.
use bless_os.Prelude.{
  has, Distinct, ℕ, zero, suc, ◌+◌, ◌-◌, ◌<◌, ◌≡◌, refl, ◌∙◌, some, List, [], ◌∷◌, length, true,
  false, ◌==◌, if◌then◌else◌, arith, Bool-cases, inl, inr, ltb, ◌||◌,
}
use bless_os.Sched.{Task, is_running, put_task}
use bless_os.Sched.Pick.{Chain}
use bless_os.Timer.{age_task, age}

-- One tick takes a priority that is a byte down by 30 if the task is running, but up by 226 if less
-- than 30 was left; it takes it up by 10 otherwise, but down by 246 from 246 on.
pub age_task-priority :
    (t : Task)
    → t.priority < 256
    → (age_task t).priority ≡ (
        if is_running t.state
        then (if ltb t.priority 30 then t.priority + 226 else t.priority - 30)
        else if ltb t.priority 246
        then t.priority + 10
        else t.priority - 246)
unfolding age_task
age_task-priority t h = ground arith

pub next-age_task : (t : Task) → (age_task t).next ≡ t.next
unfolding age_task
next-age_task t = ground arith

pub Chain-next :
    (t u : ℕ → Task) (v : ℕ) (ids : List ℕ)
    → ((a : ℕ) → (u a).next ≡ (t a).next)
    → Chain t v ids
    → Chain u v ids
Chain-next t u v [] same c = c
Chain-next t u v (a ∷ ids) same (e, ne, c) =
    (e, ne, rw (same v) (Chain-next t u (t v).next ids same c))

aged_step :
    (tasks : ℕ → Task) (a b : ℕ) (ids : List ℕ)
    → has a ids ≡ false
    → (if has b ids
        then age_task (put_task a (age_task (tasks a)) tasks b)
        else put_task a (age_task (tasks a)) tasks b)
      ≡ (if (b == a) || has b ids then age_task (tasks b) else tasks b)
aged_step tasks a b ids once = elim (Bool-cases (b == a)) [
  | inl same ↦
      let e : b ≡ a = ground arith in
      let back : (a == a) ≡ true = ground arith in rw (e, once, back)
  | inr other ↦ let back : (a == b) ≡ false = ground arith in rw (other, back)
]

-- If the tasks are linked in a list without repetition and the fuel is more than its length, the
-- walk of the clock interrupt ends, and has aged every task of the list once and no other.
pub age-listed :
    (ids : List ℕ) (fuel : ℕ) (tasks : ℕ → Task) (v : ℕ)
    → Chain tasks v ids
    → Distinct ids
    → length ids < fuel
    → (tasks' : ℕ → Task) × (age fuel tasks v ≡ some tasks')
      × ((b : ℕ) → tasks' b ≡ (if has b ids then age_task (tasks b) else tasks b))
unfolding age
age-listed ids zero tasks v c d h = absurd (omega arith)
age-listed [] (suc n) tasks v c d h = (tasks, rw (c, age) refl, λ b. refl)
age-listed (a ∷ ids) (suc n) tasks v (e, ne, c) (once, d) h =
    let there : (a == 0) ≡ false = ground arith in
    let c₁ : Chain tasks (tasks a).next ids = rw e at c in
    let tasks₁ = put_task a (age_task (tasks a)) tasks in
    let c₂ =
      Chain-next tasks tasks₁ (tasks a).next ids (λ b. ground (arith, next-age_task (tasks a)))
        c₁ in
    let (tasks', done, each) = age-listed ids n tasks₁ (tasks a).next c₂ d (omega arith) in
    (tasks', rw (e, age, there) done, λ b. each b ∙ aged_step tasks a b ids once)
