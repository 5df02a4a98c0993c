-- ===== src/Exceptions.antt =====
-- src/kernel/exceptions.c with the gates of src/include/kernel/system.h: what the processor's exceptions
-- lead to. The table of handlers, isr_table of src/kernel/isr.s, is an argument: a list of addresses, two
-- for each interrupt, and a read behind the list's end is a fault. isr.s fills 47 pairs of it.
pub mod Gates
pub mod Halts
pub mod Dump
use bless_os.Prelude.{
  ℕ, zero, suc, ◌+◌, ◌-◌, ◌*◌, ◌/◌, ◌%◌, ◌^◌, ltb, ◌==◌, if◌then◌else◌, Option, none, some, List,
  [], ◌∷◌, get_elem?, Outcome, ok, halted, fault, ◌>>=◌,
}
use bless_os.Prelude.Text.{chars}
use bless_os.OrderedArray.{or_fault}
use bless_os.Console.{Console, outb}
use bless_os.Printk.{KpLevel, kpl_panic, fg_of, bg_of, Arg, word, string, printk}

-- `intr_stack_frame_t`, with the two control registers that `info` reads.
pub record Frame : Type 0 where
  pub ss : ℕ
  pub gs : ℕ
  pub fs : ℕ
  pub es : ℕ
  pub ds : ℕ
  pub edi : ℕ
  pub esi : ℕ
  pub ebp : ℕ
  pub esp : ℕ
  pub ebx : ℕ
  pub edx : ℕ
  pub ecx : ℕ
  pub eax : ℕ
  pub isr_nr : ℕ
  pub err : ℕ
  pub eip : ℕ
  pub cs : ℕ
  pub eflags : ℕ
  pub old_esp : ℕ
  pub old_ss : ℕ
  pub cr2 : ℕ
  pub cr3 : ℕ

abbrev pub exception_msg : List (List ℕ)
exception_msg =
    chars "DIVIDE ERROR"
    ∷ chars "DEBUG EXCEPTION"
    ∷ chars "BREAKPOINT"
    ∷ chars "NMI"
    ∷ chars "OVERFLOW"
    ∷ chars "BOUNDS CHECK"
    ∷ chars "INVALID OPCODE"
    ∷ chars "COPROCESSOR NOT VALID"
    ∷ chars "DOUBLE FAULT"
    ∷ chars "OVERRUN"
    ∷ chars "INVALID TSS"
    ∷ chars "SEGMENTATION NOT PRESENT"
    ∷ chars "STACK EXCEPTION"
    ∷ chars "GENERAL PROTECTION"
    ∷ chars "PAGE FAULT"
    ∷ chars "RESERVED"
    ∷ chars "COPROCESSOR_ERROR"
    ∷ []

-- `sizeof(exception_msg)`: 17 pointers.
abbrev pub sizeof_exception_msg : ℕ
sizeof_exception_msg = 68

abbrev pub message : ℕ → Outcome (List ℕ)
message isr_nr = elim (get_elem? exception_msg isr_nr) [ none ↦ fault | some msg ↦ ok msg ]

-- The first line of `info`.
unfoldable pub title : KpLevel → Frame → Console → Outcome Console
title kl f con =
    if ltb f.isr_nr sizeof_exception_msg
    then (message f.isr_nr >>= λ msg.
        printk (fg_of kl) (bg_of kl) (chars "EXCEPTION %d: %s\n=======================\n")
          (word f.isr_nr ∷ string msg ∷ []) con)
    else printk (fg_of kl) (bg_of kl) (chars "INTERRUPT %d\n=======================\n")
        (word f.isr_nr ∷ []) con

-- The formats and arguments of the other calls of `printk`.
abbrev pub report : Frame → List (List ℕ × List Arg)
report f =
    (chars "cs:\t%x\teip:\t%x\teflags:\t%x\n", word f.cs ∷ word f.eip ∷ word f.eflags ∷ [])
    ∷ (chars "ss:\t%x\tesp:\t%x\n", word f.ss ∷ word f.esp ∷ [])
    ∷ (chars "old ss:\t%x\told esp:%x\n", word f.old_ss ∷ word f.old_esp ∷ [])
    ∷ (chars "errcode:%x\tcr2:\t%x\tcr3:\t%x\n", word f.err ∷ word f.cr2 ∷ word f.cr3 ∷ [])
    ∷ (chars "General Registers:\n=======================\n", [])
    ∷ (chars "eax:\t%x\tebx:\t%x\n", word f.eax ∷ word f.ebx ∷ [])
    ∷ (chars "ecx:\t%x\tedx:\t%x\n", word f.ecx ∷ word f.edx ∷ [])
    ∷ (chars "esi:\t%x\tedi:\t%x\tebp:\t%x\n", word f.esi ∷ word f.edi ∷ word f.ebp ∷ [])
    ∷ (chars "Segment Registers:\n=======================\n", [])
    ∷ (chars "ds:\t%x\tes:\t%x\n", word f.ds ∷ word f.es ∷ [])
    ∷ (chars "fs:\t%x\tgs:\t%x\n", word f.fs ∷ word f.gs ∷ [])
    ∷ []

unfoldable pub print_lines : KpLevel → List (List ℕ × List Arg) → Console → Outcome Console
print_lines kl [] con = ok con
print_lines kl ((fmt, args) ∷ lines) con =
    printk (fg_of kl) (bg_of kl) fmt args con >>= print_lines kl lines

unfoldable pub info : KpLevel → Frame → Console → Outcome Console
info kl f con = title kl f con >>= print_lines kl (report f)

-- The body that the sixteen handlers share: they print and halt.
unfoldable pub handler : Frame → Console → Outcome Console
handler f con = info kpl_panic f con >>= λ _. halted

-- `EOI`
pub end_of_interrupt : List (ℕ × ℕ) → List (ℕ × ℕ)
end_of_interrupt sent = outb 0x20 0x20 sent

-- A gate of the `idt`, by its two words.
pub record Gate : Type 0 where
  pub a : ℕ
  pub b : ℕ

abbrev pub set_gate : (type dpl addr : ℕ) → Gate
set_gate type dpl addr = record {
  a = 0x00080000 + addr % 2 ^ 16;
  b = addr / 2 ^ 16 * 2 ^ 16 + (0x8000 + dpl * 2 ^ 13 + type * 2 ^ 8);
}

abbrev pub Idt : Type 0
Idt = ℕ → Gate

abbrev pub set_intr_gate : (n addr : ℕ) → Idt → Idt
set_intr_gate n addr idt k = if n == k then set_gate 14 0 addr else idt k

-- A loop of `traps_init`: each gate takes the second address of its pair.
pub traps_loop : (rounds i : ℕ) → List ℕ → Idt → Outcome Idt
traps_loop zero i table idt = ok idt
traps_loop (suc rounds) i table idt = or_fault (get_elem? table (2 * i + 1)) >>= λ addr.
    traps_loop rounds (suc i) table (set_intr_gate i addr idt)

abbrev pub valid_isr : ℕ
valid_isr = 32

pub traps_init : List ℕ → Idt → Outcome Idt
traps_init table idt =
    traps_loop (valid_isr + 2) 0 table idt
    >>= traps_loop (256 - (valid_isr + 2)) (valid_isr + 2) table
