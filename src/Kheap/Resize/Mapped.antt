-- ===== src/Kheap/Resize/Mapped.antt =====
-- get_free_page and put_page of src/mm/memory.c in a row, as expand of src/kernel/kheap.c calls them.
use mathlib.Core.Path.{subst}
use bless_os.Prelude.{
  ℕ, ◌≤◌, ◌<◌, ◌≡◌, ◌≢◌, refl, sym, ◌∙◌, ap, arith, ◌==◌, Outcome, ok, ◌>>=◌, Bool-cases, inl, inr,
  true, bit_or,
}
use bless_os.Prelude.Ram.{store}
use bless_os.Memory.{
  Mm, page_dir_entry, page_slot, is_present, table_of, enter, put_entry, put_page, get_page_addr,
}
use bless_os.Memory.Pages.{found, page_address, get_free_page-page}
use bless_os.Memory.Mapping.{dir_in, unflag, IsPage, put_page_managed, index_of, checked}
use bless_os.Kheap.Resize.{put_free_page, map_page}

-- The directory's entry at `d` leads to the page table at `t`.
pub record Table (d t : ℕ) (mm : Mm) : Type 0 where
  pub present : is_present (mm.ram d) ≡ true
  pub leads : table_of (mm.ram d) ≡ t
  pub far : 4096 ≤ t

-- The state when the page that `get_free_page` found has been entered for an address.
abbrev pub entered : (address t : ℕ) → Mm → Mm
entered address t mm = record mm {
  mem_map = store mm.mem_map (found mm) 1;
  ram = store mm.ram (page_slot t address) (bit_or (page_address (found mm)) 7);
}

found-IsPage : (mm : Mm) → IsPage (page_address (found mm))
found-IsPage mm =
    let inside = (get_free_page-page mm).0 in
    record { aligned = omega arith; low = omega arith; high = omega arith }

put_entry-present :
    (page address t : ℕ) (mm : Mm)
    → Table (page_dir_entry address) t mm
    → put_entry page address mm ≡ enter page address t mm
unfolding put_entry
put_entry-present page address t mm x = rw (x.present, put_entry, x.leads) refl

pub put_free_page-entered :
    (address t : ℕ) (mm : Mm)
    → Table (page_dir_entry address) t mm
    → put_free_page address mm ≡ ok (entered address t mm)
unfolding put_free_page
put_free_page-entered address t mm x =
    let page : ℕ = page_address (found mm) in
    let mm₁ : Mm = record mm { mem_map = store mm.mem_map (found mm) 1 } in
    let x₁ : Table (page_dir_entry address) t mm₁ = record {
      present = x.present;
      leads = x.leads;
      far = x.far;
    } in
    let index : index_of page ≡ found mm = omega arith in
    let marked : (store mm.mem_map (found mm) 1 (index_of page) == 1) ≡ true =
      ground (arith, index) in
    let fine : checked page mm₁ ≡ mm₁ = rw marked refl in
    let run : put_page page address mm₁ ≡ ok (enter page address t mm₁) =
      put_page_managed page address mm₁ (found-IsPage mm)
      ∙ ap (λ m. ok (put_entry page address m)) fine
      ∙ ap ok (put_entry-present page address t mm₁ x₁) in
    ap (λ r. put_page r.0 address r.1 >>= λ q. ok q.1) (get_free_page-page mm).1
    ∙ ap (λ o. o >>= λ r. ok r.1) run

pub entered-Table :
    (address d t : ℕ) (mm : Mm) → d < 4096 → Table d t mm → Table d t (entered address t mm)
entered-Table address d t mm inside x =
    let far = x.far in
    let kept : (entered address t mm).ram d ≡ mm.ram d = ground arith in
    record { present = rw kept x.present; leads = rw kept x.leads; far = far }

-- The address then has a page.
pub entered-maps :
    (address t : ℕ) (mm : Mm)
    → Table (page_dir_entry address) t mm
    → get_page_addr address (entered address t mm) ≢ 0
unfolding get_page_addr
entered-maps address t mm x =
    let page : ℕ = page_address (found mm) in
    let far = x.far in
    let inside = (get_free_page-page mm).0 in
    let d : ℕ = page_dir_entry address in
    let kept : (entered address t mm).ram d ≡ mm.ram d = ground (arith, dir_in address) in
    let value : get_page_addr address (entered address t mm) ≡ page =
      rw (kept, get_page_addr, x.present, x.leads)
        (ground (arith, unflag page (omega arith) (omega arith))) in
    λ null. absurd (omega (arith, value, null))

-- An address with a page behind the same directory entry has a page after.
pub entered-keeps :
    (address other t : ℕ) (mm : Mm)
    → Table (page_dir_entry other) t mm
    → get_page_addr other mm ≢ 0
    → get_page_addr other (entered address t mm) ≢ 0
unfolding get_page_addr
entered-keeps address other t mm x there =
    let page : ℕ = page_address (found mm) in
    let far = x.far in
    let inside = (get_free_page-page mm).0 in
    let d : ℕ = page_dir_entry other in
    let kept : (entered address t mm).ram d ≡ mm.ram d = ground (arith, dir_in other) in
    elim (Bool-cases (page_slot t address == page_slot t other)) [
      | inl same ↦
          let value : get_page_addr other (entered address t mm) ≡ page =
            rw (kept, get_page_addr, x.present, x.leads)
              (ground (arith, same, unflag page (omega arith) (omega arith))) in
          λ null. absurd (omega (arith, value, null))
      | inr apart ↦
          let value : get_page_addr other (entered address t mm) ≡ get_page_addr other mm =
            rw (kept, get_page_addr, x.present, x.leads) (ground (arith, apart)) in
          λ null. there (sym value ∙ null)
    ]

-- One round: with the table there it returns, the address then has a page, and so has every address
-- that had one and stands in the same table.
pub record Mapping (address d t : ℕ) (mm : Mm) (o : Outcome Mm) : Type 0 where
  pub state : Mm
  pub done : o ≡ ok state
  pub table : Table d t state
  pub here : get_page_addr address state ≢ 0
  pub others :
      (other : ℕ)
      → page_dir_entry other ≡ d
      → get_page_addr other mm ≢ 0
      → get_page_addr other state ≢ 0

pub put_free_page-Mapping :
    (address d t : ℕ) (mm : Mm)
    → page_dir_entry address ≡ d
    → Table d t mm
    → Mapping address d t mm (put_free_page address mm)
put_free_page-Mapping address d t mm e x =
    let at : (a : ℕ) → page_dir_entry a ≡ d → Table (page_dir_entry a) t mm =
      λ a same. subst (λ k. Table k t mm) (sym same) x in
    record {
      state = entered address t mm;
      done = put_free_page-entered address t mm (at address e);
      table = entered-Table address d t mm (subst (λ k. k < 4096) e (dir_in address)) x;
      here = entered-maps address t mm (at address e);
      others = λ other same there. entered-keeps address other t mm (at other same) there;
    }

pub map_page-Mapping :
    (address d t : ℕ) (mm : Mm)
    → page_dir_entry address ≡ d
    → Table d t mm
    → Mapping address d t mm (map_page address mm)
unfolding map_page
map_page-Mapping address d t mm e x = elim (Bool-cases (get_page_addr address mm == 0)) [
  | inl absent ↦ rw (absent, map_page) (put_free_page-Mapping address d t mm e x)
  | inr present ↦
      let mapped : get_page_addr address mm ≢ 0 = ground (arith, present) in
      record {
        state = mm;
        done = rw (present, map_page) refl;
        table = x;
        here = mapped;
        others = λ other same there. there;
      }
]
