-- ===== src/Exceptions/Halts.antt =====
-- What an exception's handler of src/kernel/exceptions.c comes to.
use bless_os.Prelude.{
  ℕ, zero, suc, ◌^◌, ◌<◌, ◌≤◌, ◌≡◌, ◌⊎◌, refl, ap, ◌∙◌, inl, inr, Bool, true, false, Bool-cases,
  arith, ltb, leb, ◌&&◌, none, some, List, [], ◌∷◌, length, get_elem?, get_elem?-out, Outcome, ok,
  halted, fault, ◌>>=◌,
}
use bless_os.Console.{Console}
use bless_os.Printk.{KpLevel, kpl_panic, print_buffer, fg_of, bg_of, Arg, word, string, printk}
use bless_os.Printk.Room.{AllWords, width}
use bless_os.Printk.Returns.{budget, printk-returns}
use bless_os.Exceptions.Dump.{dump, print_texts, print_lines-dump}
use bless_os.Exceptions.{Frame, exception_msg, report, title, print_lines, info, handler}

abbrev all_short : ℕ → List (List ℕ) → Bool
all_short k [] = true
all_short k (x ∷ xs) = leb (length x) k && all_short k xs

short_at :
    (k i : ℕ) (xs : List (List ℕ))
    → all_short k xs ≡ true
    → i < length xs
    → (x : List ℕ) × (get_elem? xs i ≡ some x) × (length x ≤ k)
short_at k i [] s h = absurd (omega arith)
short_at k zero (x ∷ xs) s h = (x, refl, ground (arith, s))
short_at k (suc i) (x ∷ xs) s h = short_at k i xs (ground (arith, s)) (omega arith)

-- What prints one text.
abbrev Prints : KpLevel → Console → Outcome Console → Type 0
Prints kl con o = (text : List ℕ) × (o ≡ ok (print_buffer (fg_of kl) (bg_of kl) text con))

line-Prints :
    (kl : KpLevel) (fmt : List ℕ) (args : List Arg) (n : ℕ)
    → AllWords args
    → budget fmt args ≡ some n
    → n < 1024
    → (con : Console) → Prints kl con (printk (fg_of kl) (bg_of kl) fmt args con)
line-Prints kl fmt args n all e room con =
    let (text, short, done) = printk-returns (fg_of kl) (bg_of kl) fmt args n con all e room in
    (text, done)

title-Prints :
    (kl : KpLevel) (f : Frame) (con : Console)
    → f.isr_nr < 2 ^ 32
    → (ltb 16 f.isr_nr && ltb f.isr_nr 68) ≡ false
    → Prints kl con (title kl f con)
unfolding title budget width
title-Prints kl f con small known = elim (Bool-cases (ltb f.isr_nr 68)) [
  | inl low ↦
      let (msg, there, short) =
        short_at 24 f.isr_nr exception_msg refl (ground (arith, low, known)) in
      rw (low, title, there)
        (line-Prints kl _ (word f.isr_nr ∷ string msg ∷ []) _ (small, tt) refl (omega arith) con)
  | inr high ↦
      rw (high, title) (line-Prints kl _ (word f.isr_nr ∷ []) _ (small, tt) refl (omega arith) con)
]

-- A handler, called with a frame whose number is a word. For a number from 17 to 67 the message is read
-- from outside of its table, since the test compares with the table's size in bytes. For any other
-- number `info` prints the text of its heading and then every register by its name and its eight
-- hexadecimal digits, in the order of `dump`, and the handler halts.
pub handler-halts :
    (f : Frame) (con : Console)
    → f.isr_nr < 2 ^ 32
    → ((16 < f.isr_nr) × (f.isr_nr < 68) × (handler f con ≡ fault))
      ⊎ (((f.isr_nr ≤ 16) ⊎ (68 ≤ f.isr_nr))
          × ((heading : List ℕ) × (title kpl_panic f con ≡ ok (print_texts 14 4 (heading ∷ []) con))
              × (info kpl_panic f con ≡ ok (print_texts 14 4 (heading ∷ dump f) con)))
          × (handler f con ≡ halted))
unfolding handler info title print_texts
handler-halts f con small = elim (Bool-cases (ltb 16 f.isr_nr && ltb f.isr_nr 68)) [
  | inl between ↦
      let low : ltb f.isr_nr 68 ≡ true = ground (arith, between) in
      let none_there : get_elem? exception_msg f.isr_nr ≡ none =
        get_elem?-out f.isr_nr exception_msg (ground (arith, between)) in
      let no_title : title kpl_panic f con ≡ fault = rw (low, none_there, title) refl in
      inl (
        ground (arith, between),
        ground (arith, between),
        ap (λ o. o >>= print_lines kpl_panic (report f) >>= λ _. halted) no_title,
      )
  | inr known ↦
      let (heading, first) = title-Prints kpl_panic f con small known in
      let all : info kpl_panic f con ≡ ok (print_texts 14 4 (heading ∷ dump f) con) =
        ap (λ o. o >>= print_lines kpl_panic (report f)) first
        ∙ print_lines-dump kpl_panic f (print_buffer 14 4 heading con) in
      inr (
        elim (Bool-cases (ltb 16 f.isr_nr)) [
          | inl behind ↦ inr (ground (arith, known, behind))
          | inr among ↦ inl (ground (arith, among))
        ],
        (heading, first, all),
        ap (λ o. o >>= λ _. halted) all,
      )
]
