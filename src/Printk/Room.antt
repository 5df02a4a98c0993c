-- ===== src/Printk/Room.antt =====
-- How many bytes src/kernel/printk.c puts in its buffer.
use mathlib.Core.List.{append_assoc, append-nil}
use mathlib.Core.Path.{subst}
use bless_os.Prelude.{
  ℕ, ◌+◌, ◌%◌, ◌^◌, ◌<◌, ◌≤◌, ◌≡◌, sym, ap, ◌∙◌, Bool, true, false, arith, ◌==◌, if◌then◌else◌,
  Option, none, some, eq_of_some, List, [], ◌∷◌, ◌++◌, length, length-append, Outcome, ok, ◌>>=◌,
}
use bless_os.Printk.{
  Buffer, Arg, word, string, State, emit, emit_all, escape, take_word, take_string, convert,
  parse_hex, parse_num,
}
use bless_os.Printk.Decimal.{emit-ok, parse_num-read_decimal}
use bless_os.Printk.Hex.{parse_hex-read_hex}

-- The words among the arguments are words.
abbrev pub AllWords : List Arg → Type 0
AllWords [] = Unit
AllWords (word n ∷ args) = (n < 2 ^ 32) × AllWords args
AllWords (string s ∷ args) = AllWords args

-- The most bytes that a conversion puts, and the arguments that it leaves.
abbrev pub word_width : ℕ → List Arg → Option (ℕ × List Arg)
word_width w (word n ∷ args) = some (w, args)
word_width w _ = none

abbrev pub string_width : List Arg → Option (ℕ × List Arg)
string_width (string s ∷ args) = some (length s, args)
string_width _ = none

unfoldable pub width : ℕ → List Arg → Option (ℕ × List Arg)
width c args =
    if c == b's'
    then string_width args
    else if c == b'c'
    then word_width 1 args
    else if c == b'x'
    then word_width 8 args
    else if c == b'p'
    then word_width 8 args
    else if c == b'd'
    then word_width 10 args
    else some (1, args)

-- A step that puts at most `k` bytes.
abbrev pub Puts : (k : ℕ) → Buffer → Outcome Buffer → Type 0
Puts k buffer o = (ds : List ℕ) × (o ≡ ok (buffer ++ ds)) × (length ds ≤ k)

pub emit-Puts : (c : ℕ) (buffer : Buffer) → length buffer + 1 ≤ 1024 → Puts 1 buffer (emit c buffer)
emit-Puts c buffer room = (c ∷ [], emit-ok c buffer (omega arith), omega arith)

emit_all-Puts :
    (s : List ℕ) (buffer : Buffer)
    → length buffer + length s ≤ 1024
    → Puts (length s) buffer (emit_all s buffer)
unfolding emit_all
emit_all-Puts [] buffer room = ([], ap ok (sym (append-nil buffer)), omega arith)
emit_all-Puts (c ∷ s) buffer room =
    let (ds, done, short) =
      emit_all-Puts s (buffer ++ (c ∷ [])) (omega (arith, length-append buffer (c ∷ []))) in
    (
      c ∷ ds,
      ap (λ o. o >>= emit_all s) (emit-ok c buffer (omega arith))
          ∙ done
          ∙ ap ok (append_assoc buffer (c ∷ []) ds),
      omega arith,
    )

if-Puts :
    (b : Bool) (k : ℕ) (buffer : Buffer) (o o' : Outcome Buffer)
    → Puts k buffer o
    → Puts k buffer o'
    → Puts k buffer (if b then o else o')
if-Puts true k buffer o o' p q = p
if-Puts false k buffer o o' p q = q

pub escape-Puts :
    (c : ℕ) (buffer : Buffer) → length buffer + 1 ≤ 1024 → Puts 1 buffer (escape c buffer)
unfolding escape
escape-Puts c buffer room =
    let one : (d : ℕ) → Puts 1 buffer (emit d buffer) = λ d. emit-Puts d buffer room in
    if-Puts (c == b'a') 1 buffer _ _ (one 7) (
      if-Puts (c == b'b') 1 buffer _ _ (one 8) (
        if-Puts (c == b't') 1 buffer _ _ (one 9) (
          if-Puts (c == b'n') 1 buffer _ _ (one 10) (
            if-Puts (c == b'r') 1 buffer _ _ (one 13) (
              if-Puts (c == 92) 1 buffer _ _ (one 92)
                ([], ap ok (sym (append-nil buffer)), omega arith))))))

-- What a conversion comes to.
abbrev pub Converts : (w : ℕ) → List Arg → Buffer → Outcome State → Type 0
Converts w rest buffer o =
    (ds : List ℕ) × (o ≡ ok (buffer ++ ds, rest)) × (length ds ≤ w) × AllWords rest

take_word-Converts :
    (f : ℕ → Buffer → Outcome Buffer) (k w : ℕ) (args rest : List Arg) (buffer : Buffer)
    → length buffer + w ≤ 1024
    → ((n : ℕ) → n < 2 ^ 32 → length buffer + k ≤ 1024 → Puts k buffer (f n buffer))
    → AllWords args
    → word_width k args ≡ some (w, rest)
    → Converts w rest buffer (take_word f args buffer)
take_word-Converts f k w [] rest buffer room puts all e = cc
take_word-Converts f k w (string s ∷ args) rest buffer room puts all e = cc
take_word-Converts f k w (word n ∷ args) rest buffer room puts (small, all) e =
    let same = eq_of_some e in
    let kw : k ≡ w = ap (λ r. r.0) same in
    let (ds, done, short) = puts n small (omega arith) in
    (
      ds,
      ap (λ o. o >>= λ b. ok (b, args)) done ∙ ap (λ r. ok (buffer ++ ds, r.1)) same,
      omega arith,
      subst AllWords (ap (λ r. r.1) same) all,
    )

take_string-Converts :
    (w : ℕ) (args rest : List Arg) (buffer : Buffer)
    → length buffer + w ≤ 1024
    → string_width args ≡ some (w, rest)
    → AllWords args
    → Converts w rest buffer (take_string args buffer)
take_string-Converts w [] rest buffer room e all = cc
take_string-Converts w (word n ∷ args) rest buffer room e all = cc
take_string-Converts w (string s ∷ args) rest buffer room e all =
    let same = eq_of_some e in
    let sw : length s ≡ w = ap (λ r. r.0) same in
    let (ds, done, short) = emit_all-Puts s buffer (omega arith) in
    (
      ds,
      ap (λ o. o >>= λ b. ok (b, args)) done ∙ ap (λ r. ok (buffer ++ ds, r.1)) same,
      omega arith,
      subst AllWords (ap (λ r. r.1) same) all,
    )

-- A test that the width and the conversion make alike.
if-Converts :
    (b : Bool) (w : ℕ) (rest : List Arg) (buffer : Buffer) (v v' : Option (ℕ × List Arg))
    (o o' : Outcome State)
    → (v ≡ some (w, rest) → Converts w rest buffer o)
    → (v' ≡ some (w, rest) → Converts w rest buffer o')
    → (if b then v else v') ≡ some (w, rest)
    → Converts w rest buffer (if b then o else o')
if-Converts true w rest buffer v v' o o' p q e = p e
if-Converts false w rest buffer v v' o o' p q e = q e

parse_hex-Puts :
    (buffer : Buffer) (n : ℕ)
    → n < 2 ^ 32
    → length buffer + 8 ≤ 1024
    → Puts 8 buffer (parse_hex n buffer)
parse_hex-Puts buffer n small room =
    let (ds, done, reads, eight) = parse_hex-read_hex n buffer small room in (ds, done, omega arith)

parse_num-Puts :
    (n : ℕ) (buffer : Buffer)
    → n < 2 ^ 32
    → length buffer + 10 ≤ 1024
    → Puts 10 buffer (parse_num 10 n 10 buffer)
parse_num-Puts n buffer small room =
    let (ds, done, reads, short) =
      parse_num-read_decimal 10 n buffer (omega arith) (omega arith) room in
    (ds, done, short)

-- A character that is no conversion is put as it is.
plain :
    (c w : ℕ) (args rest : List Arg) (buffer : Buffer)
    → length buffer + w ≤ 1024
    → ◌≡◌ {A = Option (ℕ × List Arg)} (some (1, args)) (some (w, rest))
    → AllWords args
    → Converts w rest buffer (emit c buffer >>= λ b. ok (b, args))
plain c w args rest buffer room e all =
    let same = eq_of_some e in
    let one : 1 ≡ w = ap (λ r. r.0) same in
    (
      c ∷ [],
      ap (λ o. o >>= λ b. ok (b, args)) (emit-ok c buffer (omega arith))
          ∙ ap (λ r. ok (buffer ++ c ∷ [], r.1)) same,
      omega arith,
      subst AllWords (ap (λ r. r.1) same) all,
    )

pub convert-Converts :
    (c w : ℕ) (args rest : List Arg) (buffer : Buffer)
    → length buffer + w ≤ 1024
    → AllWords args
    → width c args ≡ some (w, rest)
    → Converts w rest buffer (convert c args buffer)
unfolding convert width
convert-Converts c w args rest buffer room all =
    let hex = take_word-Converts parse_hex 8 w args rest buffer room (parse_hex-Puts buffer) all in
    if-Converts (c == b's') w rest buffer _ _ _ _
      (λ e. take_string-Converts w args rest buffer room e all)
      (if-Converts (c == b'c') w rest buffer _ _ _ _
        (take_word-Converts (λ n. emit (n % 256)) 1 w args rest buffer room
          (λ n small fit. emit-Puts (n % 256) buffer fit) all)
        (if-Converts (c == b'x') w rest buffer _ _ _ _ hex (
          if-Converts (c == b'p') w rest buffer _ _ _ _ hex (
            if-Converts (c == b'd') w rest buffer _ _ _ _
              (take_word-Converts (λ n. parse_num 10 n 10) 10 w args rest buffer room
                (λ n small fit. parse_num-Puts n buffer small fit) all)
              (λ e. plain c w args rest buffer room e all)))))
