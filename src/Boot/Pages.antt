-- ===== src/Boot/Pages.antt =====
-- The page tables while main of src/init/print.c gives out its first pages.
use mathlib.Core.Path.{subst}
use bless_os.Prelude.{
  ℕ, zero, suc, ◌+◌, ◌*◌, ◌/◌, ◌^◌, ◌≤◌, ◌<◌, ◌≡◌, refl, sym, ap, ◌∙◌, bit_or, ok, ◌>>=◌, eq_of_ok,
  true, arith, add32,
}
use bless_os.Prelude.Bits.{and_0x3ff, and_0xffc}
use bless_os.Prelude.Ram.{store}
use bless_os.Memory.{Mm, page_dir_entry, page_slot, get_page_addr}
use bless_os.Memory.Pages.{found, page_address}
use bless_os.Memory.Mapping.{present_or, dir_in}
use bless_os.Kheap.Resize.{each_page, put_free_page}
use bless_os.Kheap.Resize.Mapped.{Table, entered, put_free_page-entered, entered-Table}
use bless_os.Boot.{has_page, touch, give_page, test_writes}

-- The page tables as src/boot/setup.s leaves them: two tables, pg0 at 0x1000 and pg1 at 0x2000, map the
-- first 8 MiB to themselves.
pub record SetUp (mm : Mm) : Type 0 where
  pub low : mm.ram 0 ≡ 0x1007
  pub high : mm.ram 4 ≡ 0x2007
  pub identity : (k : ℕ) → k < 2048 → mm.ram (0x1000 + 4 * k) ≡ 4096 * k + 7

pub SetUp-Table : (mm : Mm) → SetUp mm → Table 0 0x1000 mm
SetUp-Table mm x = record { present = rw x.low refl; leads = rw x.low refl; far = omega arith }

pub give_page-entered : (t : ℕ) (mm : Mm) → Table 0 t mm → give_page mm ≡ ok (entered 0x200000 t mm)
unfolding give_page put_free_page
give_page-entered t mm x =
    let e : page_dir_entry 0x200000 ≡ 0 = refl in put_free_page-entered 0x200000 t mm x

touch-there : (address : ℕ) (mm : Mm) → has_page address mm ≡ true → touch address mm ≡ ok mm
unfolding touch
touch-there address mm e = rw (touch, e) refl

has_page-entered :
    (t : ℕ) (mm : Mm) → Table 0 t mm → has_page 0x200000 (entered 0x200000 t mm) ≡ true
has_page-entered t mm x =
    let page : ℕ = page_address (found mm) in
    let far = x.far in
    let kept : store mm.ram (page_slot t 0x200000) (bit_or page 7) 0 ≡ mm.ram 0 = ground arith in
    let own : store mm.ram (page_slot t 0x200000) (bit_or page 7) (page_slot t 0x200000)
        ≡ bit_or page 7 =
      ground arith in
    rw (kept, x.present, x.leads, own) (present_or page (omega arith))

-- An address with a table of its own, away from that of the first addresses.
pub record Other (address t u : ℕ) (mm : Mm) : Type 0 where
  pub table : Table (page_dir_entry address) u mm
  pub apart : t + 4096 ≤ u

-- A page that is entered in the first table changes nothing there.
get_page_addr-entered :
    (a address t u : ℕ) (mm : Mm)
    → 4096 ≤ t
    → Other address t u mm
    → (get_page_addr address (entered a t mm) ≡ get_page_addr address mm)
      × Other address t u (entered a t mm)
unfolding get_page_addr
get_page_addr-entered a address t u mm far x =
    let d : ℕ = page_dir_entry address in
    let inside = dir_in address in
    let x₁ = x.table in
    let apart = x.apart in
    let kept : (entered a t mm).ram d ≡ mm.ram d = ground arith in
    let near = and_0x3ff (a / 2 ^ 12) in
    let slot : (entered a t mm).ram (page_slot u address) ≡ mm.ram (page_slot u address) =
      ground arith in
    (
      rw (kept, get_page_addr, x₁.present, x₁.leads, slot) refl,
      record {
        table = record { present = rw kept x₁.present; leads = rw kept x₁.leads; far = x₁.far };
        apart = apart;
      },
    )

pub each_page-others :
    (address t u rounds a : ℕ) (mm mm' : Mm)
    → Table 0 t mm
    → Other address t u mm
    → a + 4096 * rounds ≤ 2 ^ 22
    → each_page put_free_page rounds a mm ≡ ok mm'
    → get_page_addr address mm' ≡ get_page_addr address mm
unfolding each_page
each_page-others address t u zero a mm mm' x y le e = ap (get_page_addr address) (sym (eq_of_ok e))
each_page-others address t u (suc rounds) a mm mm' x y le e =
    let dir : page_dir_entry a ≡ 0 = omega (arith, and_0xffc (a / 2 ^ 20)) in
    let step = put_free_page-entered a t mm (subst (λ (d : ℕ). Table d t mm) (sym dir) x) in
    let next : add32 a 0x1000 ≡ a + 4096 = omega arith in
    let (same, z) = get_page_addr-entered a address t u mm x.far y in
    let rest : each_page put_free_page rounds (a + 4096) (entered a t mm) ≡ ok mm' =
      ap (λ (b : ℕ). each_page put_free_page rounds b (entered a t mm)) (sym next)
      ∙ ap (λ o. o >>= each_page put_free_page rounds (add32 a 0x1000)) (sym step)
      ∙ e in
    each_page-others address t u rounds (a + 4096) (entered a t mm) mm'
      (entered-Table a 0 t mm (omega arith) x) z (omega arith) rest
    ∙ same

module _ (mm : Mm) (x : SetUp mm) where
  abbrev given : Mm
  given = entered 0x200000 0x1000 mm

  -- The second table is as it was.
  given-high : given.ram 4 ≡ 0x2007
  given-high = let kept : given.ram 4 ≡ mm.ram 4 = ground arith in kept ∙ x.high

  given-slot : given.ram (page_slot 0x2000 0x500000) ≡ 0x500007
  given-slot =
      let kept : given.ram (page_slot 0x2000 0x500000) ≡ mm.ram (0x1000 + 4 * 1280) =
        ground arith in
      kept ∙ x.identity 1280 (omega arith)

  -- Both test writes find a page.
  pub test_writes-run : test_writes given ≡ ok given
  unfolding test_writes
  test_writes-run =
      let second : has_page 0x500000 given ≡ true = rw (given-high, given-slot) refl in
      rw
        (
          touch-there 0x200000 given (has_page-entered 0x1000 mm (SetUp-Table mm x)),
          touch-there 0x500000 given second,
        )
        refl

  pub given-Other : Other 0x500000 0x1000 0x2000 given
  given-Other = record {
    table = record { present = rw given-high refl; leads = rw given-high refl; far = omega arith };
    apart = omega arith;
  }

  pub given-identity : get_page_addr 0x500000 given ≡ 0x500000
  unfolding get_page_addr
  given-identity = rw (given-high, get_page_addr, given-slot) refl
