-- ===== src/Printk/Returns.antt =====
-- The messages that fit in the buffer of src/kernel/printk.c.
use mathlib.Core.List.{append_assoc, append-nil}
use bless_os.Prelude.{
  ℕ, ◌+◌, ◌<◌, ◌≤◌, ◌≡◌, refl, sym, ap, ◌∙◌, inl, inr, true, false, Bool-cases, arith, ◌==◌,
  if◌then◌else◌, Option, none, some, eq_of_some, List, [], ◌∷◌, ◌++◌, length, length-append,
  Outcome, ok, ◌>>=◌,
}
use bless_os.Console.{Console}
use bless_os.Printk.{Buffer, Arg, emit, escape, format, printk, print_buffer}
use bless_os.Printk.Decimal.{emit-ok}
use bless_os.Printk.Room.{AllWords, width, Puts, emit-Puts, escape-Puts, convert-Converts}

abbrev pub more : ℕ → Option ℕ → Option ℕ
more w none = none
more w (some n) = some (w + n)

abbrev pub behind : Option (ℕ × List Arg) → (List Arg → Option ℕ) → Option ℕ
behind none rest = none
behind (some (w, args)) rest = more w (rest args)

-- The most bytes that a format puts, if it does not go wrong.
unfoldable pub budget : List ℕ → List Arg → Option ℕ
budget [] args = some 0
budget (c ∷ []) args = if c == b'%' then none else if c == 92 then none else some 1
budget (c ∷ d ∷ fmt) args = elim (c == b'%') [
  | true ↦ behind (width d args) (budget fmt)
  | false ↦ elim (c == 92) [
    | true ↦ more 1 (budget fmt args)
    | false ↦ more 1 (budget (d ∷ fmt) args)
  ]
]

more-some : (w n : ℕ) (o : Option ℕ) → more w o ≡ some n → (m : ℕ) × (o ≡ some m) × (n ≡ w + m)
more-some w n none e = cc
more-some w n (some m) e = (m, refl, sym (eq_of_some e))

behind-some :
    (v : Option (ℕ × List Arg)) (f : List Arg → Option ℕ) (n : ℕ)
    → behind v f ≡ some n
    → (w : ℕ) × (rest : List Arg) × (m : ℕ) × (v ≡ some (w, rest)) × (f rest ≡ some m) × (n ≡ w + m)
behind-some none f n e = cc
behind-some (some (w, rest)) f n e =
    let (m, there, sum) = more-some w n (f rest) e in (w, rest, m, refl, there, sum)

-- A step and the rest of the format behind it.
Puts-behind :
    (w m n : ℕ) (buffer : Buffer) (o : Outcome Buffer) (f : Buffer → Outcome Buffer)
    → n ≡ w + m
    → Puts w buffer o
    → ((b : Buffer) → length b ≤ length buffer + w → Puts m b (f b))
    → Puts n buffer (o >>= f)
Puts-behind w m n buffer o f sum (ds, done, short) rest =
    let (ds', done', short') = rest (buffer ++ ds) (omega (arith, length-append buffer ds)) in
    (
      ds ++ ds',
      ap (λ o. o >>= f) done ∙ done' ∙ ap ok (append_assoc buffer ds ds'),
      omega (arith, length-append ds ds'),
    )

format-Puts :
    (fmt : List ℕ) (args : List Arg) (buffer : Buffer) (n : ℕ)
    → AllWords args
    → budget fmt args ≡ some n
    → length buffer + n ≤ 1024
    → Puts n buffer (format fmt args buffer)
unfolding format budget
format-Puts [] args buffer n all e room = ([], ap ok (sym (append-nil buffer)), omega arith)
format-Puts (c ∷ []) args buffer n all e room = elim (Bool-cases (c == b'%')) [
  | inl percent ↦
      let step : budget (c ∷ []) args ≡ none = rw (percent, budget) refl in
      let never = sym step ∙ e in cc
  | inr plain ↦ elim (Bool-cases (c == 92)) [
    | inl slash ↦
        let step : budget (c ∷ []) args ≡ none = rw (plain, slash, budget) refl in
        let never = sym step ∙ e in cc
    | inr letter ↦
        let step : budget (c ∷ []) args ≡ some 1 = rw (plain, letter, budget) refl in
        let one : 1 ≡ n = eq_of_some (sym step ∙ e) in
        let (ds, done, short) = emit-Puts c buffer (omega arith) in
        rw (plain, letter, format) (ds, done, omega arith)
  ]
]
format-Puts (c ∷ d ∷ fmt) args buffer n all e room = elim (Bool-cases (c == b'%')) [
  | inl percent ↦
      let step : budget (c ∷ d ∷ fmt) args ≡ behind (width d args) (budget fmt) =
        rw (percent, budget) refl in
      let (w, rest, m, v, there, sum) = behind-some (width d args) (budget fmt) n (sym step ∙ e) in
      let (ds, done, short, all') = convert-Converts d w args rest buffer (omega arith) all v in
      rw (percent, format, done)
        (Puts-behind w m n buffer (ok (buffer ++ ds)) (format fmt rest) sum (ds, refl, short)
          (λ b near. format-Puts fmt rest b m all' there (omega arith)))
  | inr plain ↦ elim (Bool-cases (c == 92)) [
    | inl slash ↦
        let step : budget (c ∷ d ∷ fmt) args ≡ more 1 (budget fmt args) =
          rw (plain, slash, budget) refl in
        let (m, there, sum) = more-some 1 n (budget fmt args) (sym step ∙ e) in
        rw (plain, slash, format)
          (Puts-behind 1 m n buffer (escape d buffer) (format fmt args) sum
            (escape-Puts d buffer (omega arith))
            (λ b short. format-Puts fmt args b m all there (omega arith)))
    | inr letter ↦
        let step : budget (c ∷ d ∷ fmt) args ≡ more 1 (budget (d ∷ fmt) args) =
          rw (plain, letter, budget) refl in
        let (m, there, sum) = more-some 1 n (budget (d ∷ fmt) args) (sym step ∙ e) in
        rw (plain, letter, format)
          (Puts-behind 1 m n buffer (emit c buffer) (format (d ∷ fmt) args) sum
            (emit-Puts c buffer (omega arith))
            (λ b short. format-Puts (d ∷ fmt) args b m all there (omega arith)))
  ]
]

-- A message whose format goes right and whose text can take at most 1023 bytes is printed: `printk`
-- returns, and what it prints is a text of at most that length.
pub printk-returns :
    (fg bg : ℕ) (fmt : List ℕ) (args : List Arg) (n : ℕ) (con : Console)
    → AllWords args
    → budget fmt args ≡ some n
    → n < 1024
    → (text : List ℕ) × (length text ≤ n)
      × (printk fg bg fmt args con ≡ ok (print_buffer fg bg text con))
unfolding printk
printk-returns fg bg fmt args n con all e room =
    let (ds, done, short) = format-Puts fmt args [] n all e (omega arith) in
    let nul = emit-ok 0 ds (omega arith) in (ds, short, rw (done, nul) refl)
