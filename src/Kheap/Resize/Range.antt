-- ===== src/Kheap/Resize/Range.antt =====
-- The loops of src/kernel/kheap.c and src/init/print.c that map the pages of a range.
use mathlib.Core.Path.{subst, ap₂}
use bless_os.Prelude.{
  ℕ, zero, suc, ◌+◌, ◌-◌, ◌*◌, ◌/◌, ◌%◌, ◌≤◌, ◌<◌, ◌^◌, ◌≡◌, ◌≢◌, refl, ◌∙◌, ap, arith, ◌==◌,
  Outcome, ok, ◌>>=◌, Bool-cases, inl, inr, true, ltb, leb, if◌then◌else◌, bit_and, add32, sub32,
}
use bless_os.Prelude.Bits.{and_0xffc, and_0xfffff000}
use bless_os.Memory.{Mm, page_dir_entry, is_present, table_of, not_7, get_page_addr}
use bless_os.Kheap.{Heap, round_size}
use bless_os.Kheap.Resize.{each_page, map_page, rounds, expand}
use bless_os.Kheap.Resize.Mapped.{Table, Mapping, map_page-Mapping}

-- The 4 MB that the `r`-th entry of the directory covers.
pub dir_of : (r a : ℕ) → r * 2 ^ 22 ≤ a → a < (r + 1) * 2 ^ 22 → r < 1024 → page_dir_entry a ≡ 4 * r
dir_of r a lo hi lt = omega (arith, and_0xffc (a / 2 ^ 20))

-- An address is found by its page.
pub get_page_addr-page :
    (a b : ℕ) (mm : Mm) → a / 4096 ≡ b / 4096 → get_page_addr a mm ≡ get_page_addr b mm
unfolding get_page_addr
get_page_addr-page a b mm e =
    let high : a / 2 ^ 20 ≡ b / 2 ^ 20 = omega arith in
    ap₂
      (λ x y.
        let entry = mm.ram (bit_and x 0xffc) in
        if is_present entry
        then bit_and (mm.ram (table_of entry + 4 * bit_and y 0x3ff)) not_7
        else 0)
      high e

-- What the loop comes to, for a step that maps one page.
pub record Mapped (rounds address r t : ℕ) (mm : Mm) (o : Outcome Mm) : Type 0 where
  pub state : Mm
  pub done : o ≡ ok state
  pub table : Table (4 * r) t state
  pub here : (k : ℕ) → k < rounds → get_page_addr (address + 4096 * k) state ≢ 0
  pub others :
      (other : ℕ)
      → page_dir_entry other ≡ 4 * r
      → get_page_addr other mm ≢ 0
      → get_page_addr other state ≢ 0

pub each_page-Mapped :
    (step : ℕ → Mm → Outcome Mm) (r t : ℕ)
    → ((a : ℕ) (mm : Mm)
        → page_dir_entry a ≡ 4 * r
        → Table (4 * r) t mm
        → Mapping a (4 * r) t mm (step a mm))
    → r < 1023
    → (rounds address : ℕ) (mm : Mm) → r * 2 ^ 22 ≤ address
    → address + 4096 * rounds ≤ (r + 1) * 2 ^ 22
    → Table (4 * r) t mm
    → Mapped rounds address r t mm (each_page step rounds address mm)
unfolding each_page
each_page-Mapped step r t maps lt zero address mm lo hi x = record {
  state = mm;
  done = refl;
  table = x;
  here = λ k none. absurd (omega arith);
  others = λ other same there. there;
}
each_page-Mapped step r t maps lt (suc rounds) address mm lo hi x =
    let dir = dir_of r address lo (omega arith) (omega arith) in
    let one = maps address mm dir x in
    let next : add32 address 0x1000 ≡ address + 4096 = omega arith in
    let rest =
      each_page-Mapped step r t maps lt rounds (address + 4096) one.state (omega arith)
        (omega arith) one.table in
    record {
      state = rest.state;
      done =
          ap (λ o. o >>= each_page step rounds (add32 address 0x1000)) one.done
          ∙ ap (λ a. each_page step rounds a one.state) next
          ∙ rest.done;
      table = rest.table;
      here = λ k less. elim (Bool-cases (k == 0)) [
        | inl first ↦
            let at : address ≡ address + 4096 * k = ground (arith, first) in
            subst (λ a. get_page_addr a rest.state ≢ 0) at (rest.others address dir one.here)
        | inr later ↦
            let at : address + 4096 + 4096 * (k - 1) ≡ address + 4096 * k = ground (arith, later) in
            subst (λ a. get_page_addr a rest.state ≢ 0) at
              (rest.here (k - 1) (ground (arith, later)))
      ];
      others = λ other same there. rest.others other same (one.others other same there);
    }

round_size-up : (n : ℕ) → 4096 ≤ n → n < 2 ^ 32 - 4096 → round_size n ≡ (n / 4096 + 1) * 4096
round_size-up n h bound = ground (arith, and_0xfffff000 n (omega arith))

-- An address of a range of pages has one, if every page of the range has one.
pub in_range :
    (rounds first a : ℕ) (mm : Mm)
    → first % 4096 ≡ 0
    → first ≤ a
    → a < first + 4096 * rounds
    → ((k : ℕ) → k < rounds → get_page_addr (first + 4096 * k) mm ≢ 0)
    → get_page_addr a mm ≢ 0
in_range rounds first a mm aligned lo hi here =
    let k : ℕ = (a - first) / 4096 in
    let same : (first + 4096 * k) / 4096 ≡ a / 4096 = omega arith in
    λ null. here k (omega arith) (get_page_addr-page (first + 4096 * k) a mm same ∙ null)

-- The heap that `expand` leaves when its loop has ended.
abbrev pub expanded : (size : ℕ) → Heap → Mm → Heap
expanded size h mm = record h {
  end_address = h.start_address + size;
  mm = mm;
  panics = if leb (h.start_address + size) h.max_address then h.panics else h.panics + 1;
}

expand-run :
    (n old size : ℕ) (h : Heap) (mm : Mm)
    → sub32 h.end_address h.start_address ≡ old
    → round_size n ≡ size
    → ltb old n ≡ true
    → each_page map_page (rounds old size) (add32 h.start_address old) h.mm ≡ ok mm
    → add32 h.start_address size ≡ h.start_address + size
    → expand n h ≡ ok (expanded size h mm)
unfolding expand
expand-run n old size h mm old_size up grows loop last =
    elim (Bool-cases (leb (h.start_address + size) h.max_address)) [
      | inl fits ↦ rw (old_size, up, grows, last, fits, loop) refl
      | inr over ↦ rw (old_size, up, grows, last, over, loop) refl
    ]

-- For a heap that starts and ends on a page's edge, a new size of at least a page and more than the old
-- one, and a range of pages behind the end that one entry of the directory below the last, 1023,
-- covers with a page table that is there, `expand` returns: the heap then ends at the multiple
-- of the page size above the new size (also where the new size is a multiple itself), every address
-- `a` between the old end and the new one has a page, and a heap that is then larger than
-- `max_address` allows counts one panic.
pub expand-maps :
    (new_size r t a : ℕ) (h : Heap)
    → h.start_address ≤ h.end_address
    → h.end_address % 4096 ≡ 0
    → h.end_address - h.start_address < new_size
    → 4096 ≤ new_size
    → r < 1023
    → r * 2 ^ 22 ≤ h.end_address
    → h.start_address + (new_size / 4096 + 1) * 4096 ≤ (r + 1) * 2 ^ 22
    → h.start_address % 4096 ≡ 0
    → Table (4 * r) t h.mm
    → h.end_address ≤ a
    → a < h.start_address + (new_size / 4096 + 1) * 4096
    → (mm : Mm) × (expand new_size h ≡ ok (expanded ((new_size / 4096 + 1) * 4096) h mm))
      × (get_page_addr a mm ≢ 0)
expand-maps new_size r t a h order aligned more page small lo hi start x from below =
    let size : ℕ = (new_size / 4096 + 1) * 4096 in
    let old : ℕ = h.end_address - h.start_address in
    let old_size : sub32 h.end_address h.start_address ≡ old = omega arith in
    let up : round_size new_size ≡ size = round_size-up new_size page (omega arith) in
    let first : add32 h.start_address old ≡ h.end_address = omega arith in
    let last : add32 h.start_address size ≡ h.start_address + size = omega arith in
    let grows : ltb old new_size ≡ true = ground arith in
    let n : ℕ = rounds old size in
    let run =
      each_page-Mapped map_page r t (λ b mm at table. map_page-Mapping b (4 * r) t mm at table)
        small n h.end_address h.mm lo (omega arith) x in
    let mapped = in_range n h.end_address a run.state aligned from (omega arith) run.here in
    (
      run.state,
      expand-run new_size old size h run.state old_size up grows
          (ap (λ e. each_page map_page n e h.mm) first ∙ run.done) last,
      mapped,
    )
