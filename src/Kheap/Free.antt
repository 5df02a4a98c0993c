-- ===== src/Kheap/Free.antt =====
-- free of src/kernel/kheap.c.
pub mod Left
pub mod Apart
pub mod Merge
pub mod Joined
pub mod Leftward
use bless_os.Prelude.{
  ℕ, zero, suc, ◌+◌, Bool, true, false, ltb, ◌==◌, ◌&&◌, not, if◌then◌else◌, Option, none, some,
  Outcome, ok, halted, fault, ◌>>=◌, add32, sub32,
}
use bless_os.Prelude.Ram.{Ram, store}
use bless_os.Prelude.Ram.Words.{store32}
use bless_os.OrderedArray.{OrderedArray, lookup_ordered_array, remove_ordered_array}
use bless_os.Kheap.{
  Heap, magic_of, hole_of, size_of, header_of, set_hole, set_size, set_footer, insert_hole, assert,
  heap_magic, header_size, footer_size,
}
use bless_os.Kheap.Resize.{contract}

-- What `free` carries from one part to the next: the header and the footer of the block that is
-- growing, and whether the hole is to be added to the index.
pub record Freeing : Type 0 where
  pub header : ℕ
  pub footer : ℕ
  pub do_add : Bool
  pub heap : Heap

abbrev pub is_magic : Ram → ℕ → Bool
is_magic m p = magic_of m p == heap_magic

-- Unify left: the footer before the header, if it leads to a hole.
unfoldable pub unify_left : Freeing → Freeing
unify_left s =
    let m = s.heap.ram in
    let test_footer = sub32 s.header footer_size in
    let left = header_of m test_footer in
    let m' = store32 m (s.footer + 4) left in
    if is_magic m test_footer && hole_of m left == 1
    then record {
      header = left;
      footer = s.footer;
      do_add = false;
      heap = record s.heap {
        ram = set_size left (add32 (size_of m' left) (size_of m s.header)) m';
      };
    }
    else s

-- The search for a header in the index; the place is `index.size` if it is not there.
unfoldable pub index_loop : (rounds iterator header : ℕ) → OrderedArray → Outcome ℕ
index_loop zero it header index = ok it
index_loop (suc rounds) it header index =
    let rest = index_loop rounds (suc it) header index in
    lookup_ordered_array it index >>= λ x. if x == header then ok it else rest

abbrev pub index_of : ℕ → OrderedArray → Outcome ℕ
index_of header index = index_loop index.size 0 header index

abbrev pub test_header : Freeing → ℕ
test_header s = add32 s.footer footer_size

-- Unify right: the header behind the footer, if it is a hole's.
unfoldable pub unify_right : Freeing → Outcome Freeing
unify_right s =
    let m = s.heap.ram in
    let right = test_header s in
    if is_magic m right && not (hole_of m right == 0)
    then (let m' = set_size s.header (add32 (size_of m s.header) (size_of m right)) m in
        index_of right s.heap.index >>= λ it.
        let h = assert (ltb it s.heap.index.size) (record s.heap { ram = m' }) in
        remove_ordered_array it h.index >>= λ index. ok (record s {
          footer = sub32 (add32 right (size_of m' right)) footer_size;
          heap = record h { index = index };
        }))
    else ok s

-- A hole at the end of the heap gives pages back. `right` is the header that the part before tested.
unfoldable pub give_back : (right : ℕ) → Freeing → Outcome Freeing
give_back right s =
    let h = s.heap in
    if add32 s.footer footer_size == h.end_address
    then (let old_length = sub32 h.end_address h.start_address in
        contract (sub32 s.header h.start_address) h >>= λ (new_length, h₁).
        let lost = sub32 old_length new_length in
        let size = sub32 (size_of h₁.ram s.header) lost in
        if size == 0
        then (index_of right h₁.index >>= λ it.
            if ltb it h₁.index.size
            then (remove_ordered_array it h₁.index >>= λ index.
                ok (record s { heap = record h₁ { index = index } }))
            else ok (record s { heap = h₁ }))
        else (let footer = sub32 (add32 s.header size) footer_size in
            ok (record s {
              footer = footer;
              heap = record h₁ { ram = set_footer footer s.header (set_size s.header size h₁.ram) };
            })))
    else ok s

unfoldable pub free : ℕ → Heap → Outcome Heap
free p h =
    if p == 0
    then ok h
    else (let header = sub32 p header_size in
        let footer = sub32 (add32 header (size_of h.ram header)) footer_size in
        let h₁ = assert (is_magic h.ram footer) (assert (is_magic h.ram header) h) in
        let s = unify_left (record {
          header = header;
          footer = footer;
          do_add = true;
          heap = record h₁ { ram = set_hole header 1 h₁.ram };
        }) in
        unify_right s >>= give_back (test_header s) >>= λ t.
        if t.do_add then insert_hole t.header t.heap else ok t.heap)
