-- ===== src/Boot.antt =====
-- src/init/print.c: `main`, which is the kernel's start, up to the heap. The kernel's messages are left
-- out, and so is what the two test writes leave in memory.
pub mod Ready
pub mod Start
pub mod Pages
use bless_os.Prelude.{
  ℕ, List, ◌+◌, Bool, ◌&&◌, if◌then◌else◌, Option, none, some, Outcome, ok, fault, ◌>>=◌,
}
use bless_os.Prelude.Ram.{Ram}
use bless_os.CyclicBuffer.{CircularBuf}
use bless_os.Console.{Console, outb, console_init}
use bless_os.Keyboard.{kb_install}
use bless_os.Timer.{timer_install}
use bless_os.Exceptions.{Idt, traps_init}
use bless_os.Sched.{Sched, sched_init}
use bless_os.Memory.{Mm, get_free_page, put_page, page_dir_entry, page_slot, is_present, table_of}
use bless_os.Kheap.Resize.{each_page, put_free_page, rounds}
use bless_os.Kheap.Placement.{Kernel, new_heap, kmalloc, kfree}

-- The writes to the ports, newest first.
pub pic_install : List (ℕ × ℕ) → List (ℕ × ℕ)
pic_install sent = outb 0xff 0xa1 (
    outb 0xff 0x21 (
      outb 0x01 0xa1 (
        outb 0x01 0x21 (
          outb 0x02 0xa1 (
            outb 0x04 0x21
              (outb 0x28 0xa1 (outb 0x20 0x21 (outb 0x11 0xa0 (outb 0x11 0x20 sent)))))))))

abbrev pub kheap_start : ℕ
kheap_start = 0x300000

abbrev pub kheap_initial_size : ℕ
kheap_initial_size = 0x100000

-- The loop that puts a page at every place of the heap.
unfoldable pub map_heap : Mm → Outcome Mm
map_heap mm =
    each_page put_free_page (rounds kheap_start (kheap_start + kheap_initial_size)) kheap_start mm

-- The loop and the creation of the heap. `ram` is what the memory of the pages holds.
unfoldable pub make_kheap : (fuel : ℕ) → Ram → Mm → Kernel → Outcome Kernel
make_kheap fuel ram mm k = map_heap mm >>= λ mm'.
    new_heap fuel kheap_start (kheap_start + kheap_initial_size) 0xCFFFF000 ram mm' k >>= λ (h, k').
    ok (record k' { kheap = some h })

-- The state of the components that `main` sets up. `sent` are the writes to the ports of the interrupt
-- controllers and the timer, newest first.
pub record Machine : Type 0 where
  pub console : Console
  pub sent : List (ℕ × ℕ)
  pub idt : Idt
  pub keyboard_buf : CircularBuf
  pub sched : Sched
  pub mm : Mm
  pub kernel : Kernel

-- `HZ`
abbrev pub hz : ℕ
hz = 100

-- The devices: `table` is the memory from `isr_table` on, whose first 94 words are those of
-- src/kernel/isr.s, with what stands behind them, where `traps_init` reads on; and the two masks are what `inb(0x21)` reads.
unfoldable pub set_devices : (table : List ℕ) (mask mask' : ℕ) → Machine → Outcome Machine
set_devices table mask mask' m = traps_init table m.idt >>= λ idt.
    elim (timer_install hz mask (pic_install m.sent)) [
      | none ↦ fault
      | some sent ↦
          let (buf, sent') = kb_install mask' m.keyboard_buf sent in
          ok (record m {
            console = console_init m.console;
            idt = idt;
            sent = sent';
            keyboard_buf = buf;
          })
    ]

-- The processor's walk through the page tables finds a page.
abbrev pub has_page : ℕ → Mm → Bool
has_page address mm =
    let entry = mm.ram (page_dir_entry address) in
    is_present entry && is_present (mm.ram (page_slot (table_of entry) address))

-- A write to an address. Without a page the processor goes to do_page_fault of src/kernel/isr.s, which
-- does not come back to the write: that is a fault.
unfoldable pub touch : ℕ → Mm → Outcome Mm
touch address mm = if has_page address mm then ok mm else fault

-- The page for the first test write.
unfoldable pub give_page : Mm → Outcome Mm
give_page mm = let (page, mm') = get_free_page mm in put_page page 0x200000 mm' >>= λ r. ok r.1

-- The two test writes.
unfoldable pub test_writes : Mm → Outcome Mm
test_writes mm = touch 0x200000 mm >>= touch 0x500000

-- `main`, up to the making of the heap. `ram` is what the memory of the heap's pages holds.
pub start : (table : List ℕ) (mask mask' fuel : ℕ) → Ram → Machine → Outcome Machine
start table mask mask' fuel ram m = set_devices table mask mask' m >>= λ m₁.
    give_page m₁.mm >>= λ mm₁.
    let m₂ = record m₁ { sched = sched_init m₁.sched; mm = mm₁ } in
    test_writes m₂.mm >>= λ mm₂. make_kheap fuel ram mm₂ m₂.kernel >>= λ k.
    ok (record m₂ { mm = elim k.kheap [ none ↦ mm₂ | some h ↦ h.mm ]; kernel = k })

-- What `main` does with the heap when it is there.
pub try_heap : (fuel : ℕ) → Kernel → Outcome Kernel
try_heap fuel k = kmalloc fuel 8 k >>= λ a. kmalloc fuel 8 a.kernel >>= λ b.
    kfree a.address b.kernel >>= λ k₁.
    kfree b.address k₁ >>= λ k₂. kmalloc fuel 0x100000 k₂ >>= λ c. ok c.kernel
