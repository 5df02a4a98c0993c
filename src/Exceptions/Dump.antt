-- ===== src/Exceptions/Dump.antt =====
-- The text that info of src/kernel/exceptions.c prints of the registers.
use bless_os.Prelude.{ℕ, ◌≡◌, refl, ap, ◌∙◌, List, [], ◌∷◌, ◌++◌, ok, ◌>>=◌}
use bless_os.Prelude.Text.{chars}
use bless_os.Console.{Console}
use bless_os.Printk.{
  KpLevel, fg_of, bg_of, Arg, emit_all, parse_hex_loop, parse_hex, convert, escape, format,
  print_buffer, printk,
}
use bless_os.Printk.Hex.{hex_text}
use bless_os.Exceptions.{Frame, report, print_lines}

-- A name and the register, by its eight digits, with a tab between.
abbrev register : List ℕ → ℕ → List ℕ
register name n = name ++ (9 ∷ hex_text 8 n)

abbrev row : List ℕ → List ℕ
row text = text ++ (10 ∷ [])

abbrev rule : List ℕ
rule = row (chars "=======================")

abbrev two : List ℕ → ℕ → List ℕ → ℕ → List ℕ
two name n name' n' = row (register name n ++ (9 ∷ register name' n'))

abbrev three : List ℕ → ℕ → List ℕ → ℕ → List ℕ → ℕ → List ℕ
three name n name' n' name'' n'' =
    row (register name n ++ (9 ∷ register name' n' ++ (9 ∷ register name'' n'')))

-- The texts below the heading: every register with its name.
abbrev pub dump : Frame → List (List ℕ)
dump f =
    three (chars "cs:") f.cs (chars "eip:") f.eip (chars "eflags:") f.eflags
    ∷ two (chars "ss:") f.ss (chars "esp:") f.esp
    ∷ row (register (chars "old ss:") f.old_ss ++ (9 ∷ chars "old esp:" ++ hex_text 8 f.old_esp))
    ∷ row (
        chars "errcode:"
        ++ (hex_text 8 f.err
            ++ (9 ∷ register (chars "cr2:") f.cr2 ++ (9 ∷ register (chars "cr3:") f.cr3))))
    ∷ (row (chars "General Registers:") ++ rule)
    ∷ two (chars "eax:") f.eax (chars "ebx:") f.ebx
    ∷ two (chars "ecx:") f.ecx (chars "edx:") f.edx
    ∷ three (chars "esi:") f.esi (chars "edi:") f.edi (chars "ebp:") f.ebp
    ∷ (row (chars "Segment Registers:") ++ rule)
    ∷ two (chars "ds:") f.ds (chars "es:") f.es
    ∷ two (chars "fs:") f.fs (chars "gs:") f.gs
    ∷ []

-- One text after the other.
unfoldable pub print_texts : (fg bg : ℕ) → List (List ℕ) → Console → Console
print_texts fg bg [] con = con
print_texts fg bg (text ∷ texts) con = print_texts fg bg texts (print_buffer fg bg text con)

-- The formats with their arguments are these texts.
abbrev Formats : List (List ℕ × List Arg) → List (List ℕ) → Type 0
Formats [] [] = Unit
Formats ((fmt, args) ∷ lines) (text ∷ texts) =
    ((fg bg : ℕ) (con : Console) → printk fg bg fmt args con ≡ ok (print_buffer fg bg text con))
    × Formats lines texts
Formats [] (text ∷ texts) = ⊥
Formats (line ∷ lines) [] = ⊥

report-Formats : (f : Frame) → Formats (report f) (dump f)
unfolding printk format convert escape parse_hex parse_hex_loop hex_text emit_all
report-Formats f = (
  λ fg bg con. refl,
  (
    λ fg bg con. refl,
    (
      λ fg bg con. refl,
      (
        λ fg bg con. refl,
        (
          λ fg bg con. refl,
          (
            λ fg bg con. refl,
            (
              λ fg bg con. refl,
              (
                λ fg bg con. refl,
                (λ fg bg con. refl, (λ fg bg con. refl, (λ fg bg con. refl, tt))),
              ),
            ),
          ),
        ),
      ),
    ),
  ),
)

print_lines-Formats :
    (kl : KpLevel) (lines : List (List ℕ × List Arg)) (texts : List (List ℕ)) (con : Console)
    → Formats lines texts
    → print_lines kl lines con ≡ ok (print_texts (fg_of kl) (bg_of kl) texts con)
unfolding print_lines print_texts
print_lines-Formats kl [] [] con x = refl
print_lines-Formats kl [] (text ∷ texts) con x = absurd x
print_lines-Formats kl (line ∷ lines) [] con x = absurd x
print_lines-Formats kl ((fmt, args) ∷ lines) (text ∷ texts) con (first, rest) =
    ap (λ o. o >>= print_lines kl lines) (first (fg_of kl) (bg_of kl) con)
    ∙ print_lines-Formats kl lines texts (print_buffer (fg_of kl) (bg_of kl) text con) rest

pub print_lines-dump :
    (kl : KpLevel) (f : Frame) (con : Console)
    → print_lines kl (report f) con ≡ ok (print_texts (fg_of kl) (bg_of kl) (dump f) con)
print_lines-dump kl f con = print_lines-Formats kl (report f) (dump f) con (report-Formats f)
