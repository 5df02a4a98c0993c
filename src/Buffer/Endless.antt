-- ===== src/Buffer/Endless.antt =====
-- Where src/drivers/buffer.c goes wrong: the search finds nothing, the only free buffer stays, and the
-- hash of a negative number is no index.
use bless_os.Prelude.{
  ℕ, zero, suc, ◌-◌, ◌%◌, ◌^◌, ◌<◌, ◌≤◌, ◌≡◌, ◌≢◌, refl, bit_xor, ◌==◌, ◌||◌, false, none, ok, [],
  ◌∷◌, arith,
}
use bless_os.Sched.{Sched}
use bless_os.Buffer.{Cache, hash, hash_mod, find_in_hashtable, getblk_round, getblk, unfree}
use bless_os.Buffer.Unlink.{FreeRing}

-- However long it runs, `getblk` does not return.
getblk-endless :
    (rounds fuel dev block : ℕ) (c : Cache) (s : Sched) → getblk rounds fuel dev block c s ≡ none
unfolding getblk getblk_round find_in_hashtable
getblk-endless zero fuel dev block c s = refl
getblk-endless (suc rounds) fuel dev block c s = getblk-endless rounds fuel dev block c s

-- The only buffer of the free list is still there when it has been taken out.
unfree-only :
    (buf : ℕ) (c : Cache)
    → buf ≢ 0
    → FreeRing c (buf ∷ [])
    → c.free_list ≡ buf
    → (c' : Cache) × (unfree buf c ≡ ok c') × FreeRing c' (buf ∷ []) × (c'.free_list ≡ buf)
unfolding unfree
unfree-only buf c nz (to, back) at =
    let test : (((c.buffer buf).free_prev == 0) || ((c.buffer buf).free_next == 0)) ≡ false =
      ground arith in
    rw test (_, refl, ground arith, ground arith)

-- A bit pattern with the sign bit hashes behind the table, unless 307 divides it.
hash-negative :
    (dev block : ℕ)
    → 2 ^ 31 ≤ bit_xor dev block
    → bit_xor dev block < 2 ^ 32
    → (2 ^ 32 - bit_xor dev block) % 307 ≢ 0
    → hash_mod ≤ hash dev block
unfolding hash
hash-negative dev block sign word ne = ground arith
