-- ===== src/Buffer/Claim.antt =====
-- What getblk of src/drivers/buffer.c does with a buffer that it has found.
use mathlib.Core.Path.{subst}
use bless_os.Prelude.{
  ℕ, ◌+◌, ◌%◌, ◌^◌, ◌≡◌, refl, sym, ap, ◌==◌, if◌then◌else◌, ok, List, ◌∷◌, ◌++◌, Distinct, arith,
}
use bless_os.Buffer.{BufferHead, Cache, bucket, claim, put_buffer, hash}
use bless_os.Buffer.Links.{Chain-same, Ring-same}
use bless_os.Buffer.Unlink.{
  next_of, prev_of, free_next_of, free_prev_of, HashList, FreeRing, content,
  remove_from_lists-Unlinked,
}

-- Writes to the fields of one buffer that are no links.
module _ (buf : ℕ) (b : BufferHead) (c : Cache) (e : b.next ≡ next_of c buf)
    (e' : b.prev ≡ prev_of c buf) (f : b.free_next ≡ free_next_of c buf)
    (f' : b.free_prev ≡ free_prev_of c buf) where
  HashList-put_buffer :
      (h : ℕ) (ids : List ℕ) → HashList c h ids → HashList (put_buffer buf b c) h ids
  HashList-put_buffer h ids =
      Chain-same (next_of c) (next_of (put_buffer buf b c)) (prev_of c)
        (prev_of (put_buffer buf b c)) (λ a. ground arith) (λ a. ground arith) 0 (c.hash_table h)
        ids

  FreeRing-put_buffer : (ids : List ℕ) → FreeRing c ids → FreeRing (put_buffer buf b c) ids
  FreeRing-put_buffer ids =
      Ring-same (free_next_of c) (free_next_of (put_buffer buf b c)) (free_prev_of c)
        (free_prev_of (put_buffer buf b c)) (λ a. ground arith) (λ a. ground arith) ids

-- If the buffer stands in the list of its hash entry, between `xs` and `ys`, and in the ring of the free
-- list, before `z` and `zs`, and no buffer twice, `claim` returns. The buffer is then in neither list,
-- the others are where they were, the free list starts at `z` if it started at the buffer, and the
-- buffer is locked, has one user more (modulo 256), is for the device and the block (modulo 2 ^ 16),
-- and is neither dirty nor up to date.
pub claim-unlinks :
    (buf z dev block : ℕ) (xs ys zs : List ℕ) (c : Cache)
    → HashList c (bucket buf c) (xs ++ buf ∷ ys)
    → Distinct (xs ++ buf ∷ ys)
    → FreeRing c (buf ∷ z ∷ zs)
    → Distinct (0 ∷ buf ∷ z ∷ zs)
    → (c' : Cache) × (claim buf dev block c ≡ ok c')
      × HashList c' (bucket buf c) (xs ++ ys)
      × FreeRing c' (z ∷ zs)
      × (c'.free_list ≡ (if c.free_list == buf then z else c.free_list))
      × (content (c'.buffer buf) ≡ (
        (c.buffer buf).block_data,
        dev % 2 ^ 16,
        block % 2 ^ 16,
        0,
        0,
        ((c.buffer buf).count + 1) % 2 ^ 8,
        1,
      ))
unfolding claim
claim-unlinks buf z dev block xs ys zs c listed once ring apart =
    let b : BufferHead = c.buffer buf in
    let locked : BufferHead = record b { lock = 1; count = (b.count + 1) % 2 ^ 8 } in
    let c₁ : Cache = put_buffer buf locked c in
    let list₁ =
      HashList-put_buffer buf locked c refl refl refl refl (bucket buf c) (xs ++ buf ∷ ys) listed in
    let ring₁ = FreeRing-put_buffer buf locked c refl refl refl refl (buf ∷ z ∷ zs) ring in
    let own : c₁.buffer buf ≡ locked = ground arith in
    let same : bucket buf c ≡ bucket buf c₁ =
      ap (λ (x : BufferHead). hash x.dev x.block_no) (sym own) in
    let (c₂, done, x) =
      remove_from_lists-Unlinked buf z xs ys zs c₁
        (subst (λ (h : ℕ). HashList c₁ h (xs ++ buf ∷ ys)) same list₁) once ring₁ apart in
    let taken : BufferHead = record (c₂.buffer buf) {
      dev = dev % 2 ^ 16;
      block_no = block % 2 ^ 16;
      dirt = 0;
      uptodate = 0;
    } in
    (
      put_buffer buf taken c₂,
      rw done refl,
      HashList-put_buffer buf taken c₂ refl refl refl refl (bucket buf c) (xs ++ ys)
          (subst (λ (h : ℕ). HashList c₂ h (xs ++ ys)) (sym same) x.hash_list),
      FreeRing-put_buffer buf taken c₂ refl refl refl refl (z ∷ zs) x.free_ring,
      x.free_head,
      ground (arith, x.kept),
    )
