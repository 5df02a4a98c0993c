-- ===== src/Exceptions/Gates.antt =====
-- traps_init of src/kernel/exceptions.c: which gates it sets.
use bless_os.Prelude.{
  ℕ, zero, suc, ◌+◌, ◌*◌, ◌/◌, ◌%◌, ◌^◌, ◌<◌, ◌≤◌, ◌≡◌, ◌⊎◌, true, false, refl, ap, ◌∙◌, inl, inr,
  Bool-cases, arith, ltb, ◌==◌, if◌then◌else◌, some, List, [], ◌∷◌, length, get_elem?,
  get_elem?-out, get_or, ok, fault, ◌>>=◌,
}
use bless_os.Exceptions.{Gate, Idt, set_intr_gate, set_gate, traps_loop, traps_init}

-- The address that a gate leads to.
abbrev pub gate_offset : Gate → ℕ
gate_offset g = g.a % 2 ^ 16 + g.b / 2 ^ 16 * 2 ^ 16

-- The second address of a pair of the table.
abbrev pub entry : ℕ → List ℕ → ℕ
entry n table = get_or table (2 * n + 1) 0

get_elem?-in : (i : ℕ) (xs : List ℕ) → i < length xs → get_elem? xs i ≡ some (get_or xs i 0)
get_elem?-in i [] h = absurd (omega arith)
get_elem?-in zero (x ∷ xs) h = refl
get_elem?-in (suc i) (x ∷ xs) h = get_elem?-in i xs (omega arith)

-- The gate of `n` after a loop from `i` on.
abbrev pub after : (rounds i n : ℕ) → List ℕ → Idt → Gate
after rounds i n table idt =
    if ltb n i then idt n else if ltb n (i + rounds) then set_gate 14 0 (entry n table) else idt n

after-step :
    (rounds i n : ℕ) (table : List ℕ) (idt : Idt)
    → after rounds (suc i) n table (set_intr_gate i (entry i table) idt)
      ≡ after (suc rounds) i n table idt
after-step rounds i n table idt = elim (Bool-cases (i == n)) [
  | inl here ↦
      let same : i ≡ n = ground (arith, here) in
      let early : ltb n (suc i) ≡ true = ground (arith, same) in
      let not_before : ltb n i ≡ false = ground (arith, same) in
      let inside : ltb n (i + suc rounds) ≡ true = ground (arith, same) in
      rw (early, not_before, inside, here) (ap (λ k. set_gate 14 0 (entry k table)) same)
  | inr other ↦ elim (Bool-cases (ltb n i)) [
    | inl before ↦
        let early : ltb n (suc i) ≡ true = ground (arith, before) in rw (early, before, other) refl
    | inr behind ↦
        let late : ltb n (suc i) ≡ false = ground (arith, other, behind) in
        let sum : suc i + rounds ≡ i + suc rounds = omega arith in
        rw (late, behind, other, sum) refl
  ]
]

traps_loop-sets :
    (rounds i n : ℕ) (table : List ℕ) (idt : Idt)
    → 2 * (i + rounds) ≤ length table
    → (idt' : Idt) × (traps_loop rounds i table idt ≡ ok idt')
      × (idt' n ≡ after rounds i n table idt)
unfolding traps_loop
traps_loop-sets zero i n table idt h = (idt, refl, ground arith)
traps_loop-sets (suc rounds) i n table idt h =
    let there = get_elem?-in (2 * i + 1) table (omega arith) in
    let (idt', done, at) =
      traps_loop-sets rounds (suc i) n table (set_intr_gate i (entry i table) idt) (omega arith) in
    (idt', rw (there, traps_loop) done, at ∙ after-step rounds i n table idt)

traps_loop-faults :
    (rounds i : ℕ) (table : List ℕ) (idt : Idt)
    → 2 * i ≤ length table
    → length table < 2 * (i + rounds)
    → traps_loop rounds i table idt ≡ fault
unfolding traps_loop
traps_loop-faults zero i table idt le h = absurd (omega arith)
traps_loop-faults (suc rounds) i table idt le h =
    elim (Bool-cases (ltb (2 * i + 1) (length table))) [
      | inl inside ↦
          let there = get_elem?-in (2 * i + 1) table (ground (arith, inside)) in
          rw (there, traps_loop)
            (traps_loop-faults rounds (suc i) table (set_intr_gate i (entry i table) idt)
              (ground (arith, inside)) (omega arith))
      | inr outside ↦
          let gone = get_elem?-out (2 * i + 1) table (ground (arith, outside)) in
          rw (gone, traps_loop) refl
    ]

traps_init-short : (table : List ℕ) (idt : Idt) → length table < 512 → traps_init table idt ≡ fault
unfolding traps_init
traps_init-short table idt h = elim (Bool-cases (ltb (length table) 68)) [
  | inl short ↦
      ap (λ o. o >>= traps_loop 222 34 table)
        (traps_loop-faults 34 0 table idt (omega arith) (ground (arith, short)))
  | inr longer ↦
      let (idt₁, first, _) = traps_loop-sets 34 0 0 table idt (ground (arith, longer)) in
      ap (λ o. o >>= traps_loop 222 34 table) first
      ∙ traps_loop-faults 222 34 table idt₁ (ground (arith, longer)) (omega arith)
]

-- With fewer than 512 addresses in the table `traps_init` reads outside of it. With 512 at least it
-- returns, and the gate of interrupt `n` below 256 leads to the second address of its pair, which is
-- a word.
pub traps_init-gates :
    (n : ℕ) (table : List ℕ) (idt : Idt)
    → n < 256
    → get_or table (2 * n + 1) 0 < 2 ^ 32
    → ((length table < 512) × (traps_init table idt ≡ fault))
      ⊎ ((512 ≤ length table)
          × ((idt' : Idt) × (traps_init table idt ≡ ok idt')
              × (gate_offset (idt' n) ≡ get_or table (2 * n + 1) 0)))
unfolding traps_init
traps_init-gates n table idt small word = elim (Bool-cases (ltb (length table) 512)) [
  | inl short ↦ inl (ground (arith, short), traps_init-short table idt (ground (arith, short)))
  | inr long ↦
      let enough : 512 ≤ length table = ground (arith, long) in
      let (idt₁, first, at₁) = traps_loop-sets 34 0 n table idt (omega arith) in
      let (idt₂, second, at₂) = traps_loop-sets 222 34 n table idt₁ (omega arith) in
      let not_below : ltb n 0 ≡ false = ground arith in
      let gate : idt₂ n ≡ set_gate 14 0 (entry n table) = elim (Bool-cases (ltb n 34)) [
        | inl first_loop ↦
            let one : after 34 0 n table idt ≡ set_gate 14 0 (entry n table) =
              rw (not_below, first_loop) refl in
            let two : after 222 34 n table idt₁ ≡ idt₁ n = rw first_loop refl in
            at₂ ∙ two ∙ at₁ ∙ one
        | inr second_loop ↦
            let inside : ltb n 256 ≡ true = ground arith in at₂ ∙ rw (second_loop, inside) refl
      ] in
      let leads : gate_offset (set_gate 14 0 (entry n table)) ≡ entry n table = omega arith in
      inr (
        enough,
        (idt₂, ap (λ o. o >>= traps_loop 222 34 table) first ∙ second, ap gate_offset gate ∙ leads),
      )
]
