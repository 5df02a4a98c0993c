-- ===== src/Examples/Buffers.antt =====
-- A buffer cache with three buffers of one hash entry and three that are free.
use bless_os.Prelude.{ℕ, ◌≡◌, refl, ◌==◌, if◌then◌else◌, ok, [], ◌∷◌, arith}
use bless_os.Buffer.{BufferHead, Cache, bucket, hash, claim}
use bless_os.Buffer.Unlink.{HashList, FreeRing, content}
use bless_os.Buffer.Claim.{claim-unlinks}

abbrev head : (prev next free_prev free_next : ℕ) → BufferHead
head prev next free_prev free_next = record {
  block_data = 0;
  dev = 1;
  block_no = 4;
  uptodate = 1;
  dirt = 1;
  count = 2;
  lock = 0;
  prev = prev;
  next = next;
  free_prev = free_prev;
  free_next = free_next;
}

-- The hash list is 100, 200, 300, and the ring of the free list 200, 100, 400.
abbrev cache : Cache
cache = record {
  buffer = λ (a : ℕ).
      if a == 100
      then head 0 200 200 400
      else if a == 200
      then head 100 300 400 100
      else if a == 300
      then head 200 0 0 0
      else head 0 0 100 200;
  hash_table = λ (h : ℕ). if h == 5 then 100 else 0;
  free_list = 200;
}

cache-HashList : HashList cache (bucket 200 cache) (100 ∷ 200 ∷ 300 ∷ [])
unfolding hash
cache-HashList = omega arith

cache-FreeRing : FreeRing cache (200 ∷ 100 ∷ 400 ∷ [])
cache-FreeRing = omega arith

claim-unlinks_example :
    (c' : Cache) × (claim 200 7 70000 cache ≡ ok c')
    × HashList c' (bucket 200 cache) (100 ∷ 300 ∷ [])
    × FreeRing c' (100 ∷ 400 ∷ [])
    × (c'.free_list ≡ 100)
    × (content (c'.buffer 200) ≡ (0, 7, 4464, 0, 0, 3, 1))
claim-unlinks_example =
    claim-unlinks 200 100 7 70000 (100 ∷ []) (300 ∷ []) (400 ∷ []) cache cache-HashList
      (refl, (refl, (refl, tt))) cache-FreeRing (refl, (refl, (refl, (refl, tt))))
