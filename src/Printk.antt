-- ===== src/Printk.antt =====
-- src/kernel/printk.c: the kernel's messages. The buffer is the list of the bytes put in it since the
-- call began, and a write past its 1024 bytes is a fault. The format is the list of its bytes, without
-- the NUL at its end; reading on behind that NUL is a fault. An argument is a word or a string.
pub mod Decimal
pub mod Hex
pub mod Room
pub mod Returns
use bless_os.Prelude.{
  ℕ, zero, suc, ◌+◌, ◌-◌, ◌*◌, ◌/◌, ◌%◌, ◌^◌, bit_and, ltb, leb, ◌==◌, if◌then◌else◌, List, [], ◌∷◌,
  ◌++◌, length, get_or, Outcome, ok, halted, fault, ◌>>=◌,
}
use bless_os.Console.{Console, print_c}

abbrev pub Buffer : Type 0
Buffer = List ℕ

abbrev pub buffer_size : ℕ
buffer_size = 1024

-- `buffer[ptr++] = c;`
abbrev pub emit : ℕ → Buffer → Outcome Buffer
emit c buffer = if ltb (length buffer) buffer_size then ok (buffer ++ (c ∷ [])) else fault

abbrev pub hex_digits : List ℕ
hex_digits =
    b'0' ∷ b'1' ∷ b'2' ∷ b'3' ∷ b'4' ∷ b'5' ∷ b'6' ∷ b'7' ∷ b'8' ∷ b'9' ∷ b'a' ∷ b'b' ∷ b'c' ∷ b'd'
    ∷ b'e' ∷ b'f' ∷ []

-- `while (i-- > 0)`
unfoldable pub parse_hex_loop : (i num : ℕ) → Buffer → Outcome Buffer
parse_hex_loop zero num buffer = ok buffer
parse_hex_loop (suc i) num buffer =
    emit (get_or hex_digits (bit_and (num / 2 ^ (i * 4)) 0x0f) 0) buffer >>= parse_hex_loop i num

unfoldable pub parse_hex : ℕ → Buffer → Outcome Buffer
unfolding parse_hex_loop
parse_hex num buffer = parse_hex_loop 8 num buffer

abbrev pub decimal_digits : List ℕ
decimal_digits = b'0' ∷ b'1' ∷ b'2' ∷ b'3' ∷ b'4' ∷ b'5' ∷ b'6' ∷ b'7' ∷ b'8' ∷ b'9' ∷ []

-- The remainder of the unsigned division is not negative, so the branch `r < 0` is left out. Without
-- fuel the result is `halted`.
pub parse_num : (fuel num base : ℕ) → Buffer → Outcome Buffer
parse_num zero num base buffer = halted
parse_num (suc fuel) num base buffer =
    let upper = parse_num fuel (num / base) base buffer in
    (if leb base num then upper else ok buffer) >>= emit (get_or decimal_digits (num % base) 0)

pub data Arg : Type 0 where
  word : ℕ → Arg
  string : List ℕ → Arg

-- `while (*s) buffer[ptr++] = *s++;`
unfoldable pub emit_all : List ℕ → Buffer → Outcome Buffer
emit_all [] buffer = ok buffer
emit_all (c ∷ s) buffer = emit c buffer >>= emit_all s

-- The `switch` behind a backslash.
unfoldable pub escape : ℕ → Buffer → Outcome Buffer
escape c buffer =
    if c == b'a'
    then emit 7 buffer
    else if c == b'b'
    then emit 8 buffer
    else if c == b't'
    then emit 9 buffer
    else if c == b'n'
    then emit 10 buffer
    else if c == b'r'
    then emit 13 buffer
    else if c == 92
    then emit 92 buffer
    else ok buffer

-- What a conversion leaves: the buffer and the arguments that are left.
abbrev pub State : Type 0
State = Buffer × List Arg

abbrev pub take_word : (ℕ → Buffer → Outcome Buffer) → List Arg → Buffer → Outcome State
take_word f (word n ∷ args) buffer = f n buffer >>= λ b. ok (b, args)
take_word f _ buffer = fault

abbrev pub take_string : List Arg → Buffer → Outcome State
take_string (string s ∷ args) buffer = emit_all s buffer >>= λ b. ok (b, args)
take_string _ buffer = fault

-- The `switch` behind a percent sign. A word has at most ten decimal digits.
unfoldable pub convert : ℕ → List Arg → Buffer → Outcome State
convert c args buffer =
    if c == b's'
    then take_string args buffer
    else if c == b'c'
    then take_word (λ n. emit (n % 256)) args buffer
    else if c == b'x'
    then take_word parse_hex args buffer
    else if c == b'p'
    then take_word parse_hex args buffer
    else if c == b'd'
    then take_word (λ n. parse_num 10 n 10) args buffer
    else (emit c buffer >>= λ b. ok (b, args))

unfoldable pub format : List ℕ → List Arg → Buffer → Outcome Buffer
format [] args buffer = ok buffer
format (c ∷ []) args buffer = if c == b'%' then fault else if c == 92 then fault else emit c buffer
format (c ∷ d ∷ fmt) args buffer =
    if c == b'%'
    then (convert d args buffer >>= λ s. format fmt s.1 s.0)
    else if c == 92
    then (escape d buffer >>= format fmt args)
    else (emit c buffer >>= format (d ∷ fmt) args)

pub print_buffer : (fg bg : ℕ) → Buffer → Console → Console
print_buffer fg bg [] con = con
print_buffer fg bg (c ∷ buffer) con = print_buffer fg bg buffer (print_c c fg bg con)

-- `enum KP_LEVEL`, and the two colours that `KPL` has for each.
pub data KpLevel : Type 0 where
  kpl_dump : KpLevel
  kpl_panic : KpLevel

abbrev pub fg_of : KpLevel → ℕ
fg_of kpl_dump = 15
fg_of kpl_panic = 14

abbrev pub bg_of : KpLevel → ℕ
bg_of kpl_dump = 0
bg_of kpl_panic = 4

-- `buffer[ptr] = '\0';` comes before the printing. `fg` and `bg` are those of the level.
unfoldable pub printk : (fg bg : ℕ) → List ℕ → List Arg → Console → Outcome Console
printk fg bg fmt args con =
    format fmt args [] >>= λ buffer. emit 0 buffer >>= λ b. ok (print_buffer fg bg buffer con)
