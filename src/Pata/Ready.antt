-- ===== src/Pata/Ready.antt =====
-- When hd_rw of src/drivers/pata.c sends its command.
use bless_os.Prelude.{
  ℕ, zero, suc, ◌+◌, ◌-◌, ◌≤◌, ◌≡◌, bit_and, ◌==◌, Bool, if◌then◌else◌, List, arith, pos, negsuc,
  is_true, not,
}
use bless_os.Pata.{Status, ready_loop, is_hd_ready, hd_rw, hd_command, ata_rdy_bit}

abbrev pub is_ready : ℕ → Bool
is_ready s = bit_and s 0xc0 == ata_rdy_bit

-- The first reading from `i` on, of `n`, that is ready; `i + n` if there is none.
unfoldable pub first_ready : (n i : ℕ) → Status → ℕ
first_ready zero i status = i
first_ready (suc n) i status =
    let rest = first_ready n (i + 1) status in if is_ready (status i) then i else rest

first_ready-le : (n i : ℕ) (status : Status) → first_ready n i status ≤ i + n
unfolding first_ready
first_ready-le zero i status = omega arith
first_ready-le (suc n) i status = ground (arith, first_ready-le n (i + 1) status)

first_ready-ge : (n i : ℕ) (status : Status) → i ≤ first_ready n i status
unfolding first_ready
first_ready-ge zero i status = omega arith
first_ready-ge (suc n) i status = ground (arith, first_ready-ge n (i + 1) status)

ready_loop-first_ready :
    (n i : ℕ) (status : Status)
    → (ready_loop n i status).0 ≡ (
        if first_ready n i status == i + n
        then negsuc 0
        else pos (i + n - 1 - first_ready n i status))
unfolding ready_loop first_ready
ready_loop-first_ready zero i status = ground arith
ready_loop-first_ready (suc n) i status = ground (
  arith,
  ready_loop-first_ready n (i + 1) status,
  first_ready-le n (i + 1) status,
  first_ready-ge n (i + 1) status,
)

-- `hd_rw` sends its command in every case but one: when the last of the 10000 readings is the first
-- that is ready. So it also sends it when no reading was ready.
pub hd_rw-first_ready :
    (drive nsect sect_no head cyl cmd : ℕ) (status : Status) (sent : List (ℕ × ℕ))
    → (hd_rw drive nsect sect_no head cyl cmd status sent).0 ≡ (
        if first_ready 10000 0 status == 9999
        then sent
        else hd_command drive nsect sect_no head cyl cmd sent)
unfolding hd_rw is_hd_ready
hd_rw-first_ready drive nsect sect_no head cyl cmd status sent = rw sends (ground arith)
  where
    sends : is_true (ready_loop 10000 0 status).0 ≡ not (first_ready 10000 0 status == 9999)
    sends = ground (arith, ready_loop-first_ready 10000 0 status, first_ready-le 10000 0 status)
