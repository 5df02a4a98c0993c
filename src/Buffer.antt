-- ===== src/Buffer.antt =====
-- src/drivers/buffer.c and src/include/kernel/buffer.h: the buffer cache. A pointer is an address, with 0
-- for NULL; `buffer` gives the structure at an address. Its field `task_wait`, at offset 12, is the cell
-- of the scheduler's `wait` at that address.
pub mod Links
pub mod Unlink
pub mod Claim
pub mod Endless
use bless_os.Prelude.{
  ℕ, zero, suc, ◌+◌, ◌-◌, ◌%◌, ◌^◌, bit_xor, not, ltb, ◌==◌, ◌||◌, if◌then◌else◌, Option, none,
  some, Outcome, ok, halted, fault, ◌>>=◌,
}
use bless_os.Prelude.Ram.{Ram, store}
use bless_os.Sched.{Sched, sleep_on, resume}

abbrev pub hash_mod : ℕ
hash_mod = 307

-- `buffer_head_t`
pub record BufferHead : Type 0 where
  pub block_data : ℕ
  pub dev : ℕ
  pub block_no : ℕ
  pub uptodate : ℕ
  pub dirt : ℕ
  pub count : ℕ
  pub lock : ℕ
  pub prev : ℕ
  pub next : ℕ
  pub free_prev : ℕ
  pub free_next : ℕ

pub record Cache : Type 0 where
  pub buffer : ℕ → BufferHead
  pub hash_table : Ram
  pub free_list : ℕ

-- The arguments are bit patterns of `s32int`; the remainder has the sign of what is divided, and then
-- becomes unsigned.
unfoldable pub hash : (dev block : ℕ) → ℕ
hash dev block =
    let x = bit_xor dev block in
    if ltb x (2 ^ 31) then x % hash_mod else (2 ^ 32 - (2 ^ 32 - x) % hash_mod) % 2 ^ 32

pub find_in_hashtable : (dev block : ℕ) → ℕ
find_in_hashtable dev block = 0

-- A write to the structure at `a`.
abbrev pub put_buffer : ℕ → BufferHead → Cache → Cache
put_buffer a b c = record c { buffer = λ (x : ℕ). if a == x then b else c.buffer x }

abbrev pub set_prev : (a v : ℕ) → Cache → Cache
set_prev a v c = put_buffer a (record (c.buffer a) { prev = v }) c

abbrev pub set_next : (a v : ℕ) → Cache → Cache
set_next a v c = put_buffer a (record (c.buffer a) { next = v }) c

abbrev pub set_free_prev : (a v : ℕ) → Cache → Cache
set_free_prev a v c = put_buffer a (record (c.buffer a) { free_prev = v }) c

abbrev pub set_free_next : (a v : ℕ) → Cache → Cache
set_free_next a v c = put_buffer a (record (c.buffer a) { free_next = v }) c

-- Where the list that the buffer hashes to starts.
abbrev pub bucket : ℕ → Cache → ℕ
bucket buf c = hash (c.buffer buf).dev (c.buffer buf).block_no

abbrev pub behind_unlinked : ℕ → Cache → Cache
behind_unlinked buf c = let b = c.buffer buf in if b.next == 0 then c else set_prev b.next b.prev c

abbrev pub before_unlinked : ℕ → Cache → Cache
before_unlinked buf c = let b = c.buffer buf in if b.prev == 0 then c else set_next b.prev b.next c

abbrev pub head_unlinked : ℕ → Cache → Cache
head_unlinked buf c =
    let h = bucket buf c in
    if c.hash_table h == buf
    then record c { hash_table = store c.hash_table h (c.buffer buf).next }
    else c

-- First the list of the hash table.
pub unhash : ℕ → Cache → Cache
unhash buf c = head_unlinked buf (before_unlinked buf (behind_unlinked buf c))

-- Then the free list.
pub unfree : ℕ → Cache → Outcome Cache
unfree buf c =
    let b = c.buffer buf in
    if (b.free_prev == 0) || (b.free_next == 0)
    then halted
    else (let c₁ = set_free_next b.free_prev b.free_next c in
        let b₁ = c₁.buffer buf in
        let c₂ = set_free_prev b₁.free_next b₁.free_prev c₁ in
        ok
          (if c₂.free_list == buf then record c₂ { free_list = (c₂.buffer buf).free_next } else c₂))

unfoldable pub remove_from_lists : ℕ → Cache → Outcome Cache
remove_from_lists buf c = unfree buf (unhash buf c)

-- What getblk does with a buffer that it has found and that is not locked.
pub claim : (buf dev block : ℕ) → Cache → Outcome Cache
claim buf dev block c =
    let b = c.buffer buf in
    let locked = put_buffer buf (record b { lock = 1; count = (b.count + 1) % 2 ^ 8 }) c in
    remove_from_lists buf locked >>= λ c'. ok (
      put_buffer buf
        (record (c'.buffer buf) {
          dev = dev % 2 ^ 16;
          block_no = block % 2 ^ 16;
          dirt = 0;
          uptodate = 0;
        })
        c')

-- One round of the loop: the buffer, or 0 where the loop goes on. A locked buffer also ends the loop, when
-- the task has slept: the pointer is no longer NULL. What other tasks do while it sleeps is left out.
pub getblk_round : (fuel dev block : ℕ) → Cache → Sched → Outcome (ℕ × Cache × Sched)
getblk_round fuel dev block c s =
    let buf = find_in_hashtable dev block in
    if buf == 0
    then ok (0, c, s)
    else if not ((c.buffer buf).lock == 0)
    then (sleep_on fuel (buf + 12) s >>= λ (tmp, s'). ok (buf, c, resume tmp s'))
    else (claim buf dev block c >>= λ c'. ok (buf, c', s))

-- `none`: the rounds ran out.
pub getblk : (rounds fuel dev block : ℕ) → Cache → Sched → Option (Outcome (ℕ × Cache × Sched))
getblk zero fuel dev block c s = none
getblk (suc rounds) fuel dev block c s = elim (getblk_round fuel dev block c s) [
  | ok (buf, c', s') ↦
      let rest = getblk rounds fuel dev block c' s' in
      if buf == 0 then rest else some (ok (buf, c', s'))
  | halted ↦ some halted
  | fault ↦ some fault
]
