-- ===== src/Pata/Wait.antt =====
-- What pata_wait of src/drivers/pata.c waits for.
use bless_os.Prelude.{
  ℕ, zero, suc, ap, false, ◌+◌, ◌≡◌, bit_and, ◌==◌, Bool, ◌||◌, if◌then◌else◌, some, arith,
}
use bless_os.Pata.{Status, pata_wait, pata_wait_loop, ata_busy_bit}

-- One of the `n` readings from `i` on has the busy bit clear.
unfoldable pub idle_within : (n i : ℕ) → Status → Bool
idle_within zero i status = false
idle_within (suc n) i status =
    (bit_and (status i) ata_busy_bit == 0) || idle_within n (i + 1) status

and_zero : (s : ℕ) → s ≡ 0 → bit_and s ata_busy_bit ≡ 0
and_zero s e = ap (λ k. bit_and k ata_busy_bit) e

-- `pata_wait` returns after at most six readings: 0 if one of them was not busy, and else the sixth
-- reading, whatever its error and fault bits say.
pub pata_wait-idle_within :
    (drive : ℕ) (status : Status)
    → pata_wait drive status ≡ some (if idle_within 6 0 status then 0 else status 5)
unfolding pata_wait pata_wait_loop idle_within
pata_wait-idle_within drive status = ground (arith, and_zero (status 5))
