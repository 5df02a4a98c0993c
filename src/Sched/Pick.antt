-- ===== src/Sched/Pick.antt =====
-- Which task schedule of src/kernel/sched.c gives the processor to.
use bless_os.Prelude.{
  has, ℕ, zero, suc, ◌≤◌, ◌<◌, ◌≡◌, ◌≢◌, ◌⊎◌, inl, inr, refl, sym, ◌∙◌, some, List, [], ◌∷◌, length,
  true, false, ◌&&◌, ◌==◌, ltb, arith, Bool-cases,
}
use mathlib.Core.Bool.{false≢true}
use native.Mathlib.Nat.{lt_irrefl}
use bless_os.Sched.{Task, Sched, is_runable, pick, switch_to, schedule}

-- From `v` the links `next` lead through the tasks `ids`, and then to NULL.
abbrev pub Chain : (ℕ → Task) → ℕ → List ℕ → Type 0
Chain tasks v [] = v ≡ 0
Chain tasks v (a ∷ ids) = (v ≡ a) × (v ≢ 0) × Chain tasks (tasks v).next ids

-- No task of the list that could run has a priority above `p`.
abbrev pub NoneAbove : (ℕ → Task) → List ℕ → ℕ → Type 0
NoneAbove tasks [] p = Unit
NoneAbove tasks (a ∷ ids) p =
    (is_runable (tasks a).state ≡ true → (tasks a).priority ≤ p) × NoneAbove tasks ids p

-- A task of the list that can run, above `cp`, with no such task above it.
pub record IsBest (tasks : ℕ → Task) (ids : List ℕ) (cp r : ℕ) : Type 0 where
  pub listed : has r ids ≡ true
  pub runable : is_runable (tasks r).state ≡ true
  pub above : cp < (tasks r).priority
  pub best : NoneAbove tasks ids (tasks r).priority

abbrev Choice : (ℕ → Task) → List ℕ → ℕ → ℕ → ℕ → Type 0
Choice tasks ids tmp cp r = ((r ≡ tmp) × NoneAbove tasks ids cp) ⊎ IsBest tasks ids cp r

not-has-zero : (tasks : ℕ → Task) (v : ℕ) (ids : List ℕ) → Chain tasks v ids → has 0 ids ≡ false
not-has-zero tasks v [] c = refl
not-has-zero tasks v (a ∷ ids) c = ground (arith, not-has-zero tasks (tasks v).next ids c.2)

-- The head of the list becomes the choice so far.
Choice-better :
    (tasks : ℕ → Task) (a : ℕ) (ids : List ℕ) (tmp cp r : ℕ)
    → (is_runable (tasks a).state && ltb cp (tasks a).priority) ≡ true
    → Choice tasks ids a (tasks a).priority r
    → Choice tasks (a ∷ ids) tmp cp r
Choice-better tasks a ids tmp cp r better (inl (same, above)) = inr (
    rw same (record {
      listed = ground arith;
      runable = ground arith;
      above = ground arith;
      best = ((λ run. omega arith), above);
    }))
Choice-better tasks a ids tmp cp r better (inr b) = inr (record {
  listed = ground (arith, b.listed);
  runable = b.runable;
  above = ground (arith, b.above);
  best = ((λ run. omega (arith, b.above)), b.best);
})

Choice-worse :
    (tasks : ℕ → Task) (a : ℕ) (ids : List ℕ) (tmp cp r : ℕ)
    → (is_runable (tasks a).state && ltb cp (tasks a).priority) ≡ false
    → Choice tasks ids tmp cp r
    → Choice tasks (a ∷ ids) tmp cp r
Choice-worse tasks a ids tmp cp r worse (inl (same, above)) =
    inl (same, ((λ run. ground arith), above))
Choice-worse tasks a ids tmp cp r worse (inr b) = inr (record {
  listed = ground (arith, b.listed);
  runable = b.runable;
  above = b.above;
  best = ((λ run. ground (arith, b.above)), b.best);
})

pick-Choice :
    (ids : List ℕ) (fuel : ℕ) (tasks : ℕ → Task) (v tmp cp : ℕ)
    → Chain tasks v ids
    → length ids < fuel
    → (r : ℕ) × (pick fuel tasks v tmp cp ≡ some r) × Choice tasks ids tmp cp r
unfolding pick
pick-Choice ids zero tasks v tmp cp c h = absurd (omega arith)
pick-Choice [] (suc n) tasks v tmp cp c h = (tmp, rw (c, pick), inl (refl, tt))
pick-Choice (a ∷ ids) (suc n) tasks v tmp cp (e, ne, c) h =
    let there : (a == 0) ≡ false = ground arith in
    let t = tasks a in
    let c' : Chain tasks t.next ids = rw e at c in
    elim (Bool-cases (is_runable t.state && ltb cp t.priority)) [
      | inl better ↦
          let (r, done, choice) = pick-Choice ids n tasks t.next a t.priority c' (omega arith) in
          (r, rw (e, pick, there, better) done, Choice-better tasks a ids tmp cp r better choice)
      | inr worse ↦
          let (r, done, choice) = pick-Choice ids n tasks t.next tmp cp c' (omega arith) in
          (r, rw (e, pick, there, worse) done, Choice-worse tasks a ids tmp cp r worse choice)
    ]

not-zero :
    (tasks : ℕ → Task) (v : ℕ) (ids : List ℕ) (r : ℕ)
    → Chain tasks v ids
    → has r ids ≡ true
    → (r == 0) ≡ false
not-zero tasks v ids r c listed = elim (Bool-cases (r == 0)) [
  | inl is_zero ↦
      let e : r ≡ 0 = ground arith in
      absurd (false≢true (sym (not-has-zero tasks v ids c) ∙ (rw e at listed)))
  | inr other ↦ other
]

ne-current :
    (s : Sched) (r : ℕ) {ids : List ℕ}
    → IsBest s.task ids (s.task s.current).priority r
    → (r == s.current) ≡ false
ne-current s r best = elim (Bool-cases (r == s.current)) [
  | inl same ↦
      let e : r ≡ s.current = ground arith in
      let above : (s.task s.current).priority < (s.task r).priority = best.above in
      absurd (lt_irrefl _ (rw e at above))
  | inr other ↦ other
]

-- If the tasks are linked in a list and the fuel is more than its length, `schedule` either changes
-- nothing, and no task of the list that can run is above the current one, or it switches to a task
-- of the list that can run, is above the current one, and has none that can run above it.
pub schedule-picks :
    (ids : List ℕ) (fuel : ℕ) (s : Sched)
    → Chain s.task s.task0 ids
    → length ids < fuel
    → (s' : Sched) × (schedule fuel s ≡ some s')
      × (((s' ≡ s) × NoneAbove s.task ids (s.task s.current).priority)
          ⊎ ((s' ≡ switch_to s'.current s)
              × IsBest s.task ids (s.task s.current).priority s'.current))
unfolding schedule switch_to
schedule-picks ids fuel s c h =
    let cp = (s.task s.current).priority in
    let (r, done, choice) = pick-Choice ids fuel s.task s.task0 0 cp c h in
    elim choice [
      | inl (stay, none_above) ↦ (s, rw (done, schedule, stay) refl, inl (refl, none_above))
      | inr best ↦
          let ne_zero : (r == 0) ≡ false = not-zero s.task s.task0 ids r c best.listed in
          let ne_current : (r == s.current) ≡ false = ne-current s r best in
          (switch_to r s, rw (done, schedule, ne_zero, ne_current) refl, inr (refl, best))
    ]
