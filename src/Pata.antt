-- ===== src/Pata.antt =====
-- src/drivers/pata.c and src/include/drivers/pata.h: the disk controller's registers. What the status
-- register reads is an argument: `status i` is the `i`-th reading. What `outb` sends is a list of
-- values and ports, newest first. `pata_sleep400` reads a port four times for the delay alone.
pub mod Ready
pub mod Wait
use bless_os.Prelude.{
  ℕ, zero, suc, ◌+◌, ◌-◌, ◌*◌, ◌/◌, ◌^◌, ◌%◌, bit_and, bit_or, not, ◌==◌, ltb, ◌&&◌, ◌||◌,
  if◌then◌else◌, Option, none, some, List, ℤ, pos, negsuc, is_true, u32_mod, sub32,
}
use bless_os.Console.{outb}

abbrev pub ata_pri_sect : ℕ
ata_pri_sect = 0x1f2

abbrev pub ata_pri_sectn : ℕ
ata_pri_sectn = 0x1f3

abbrev pub ata_pri_cyll : ℕ
ata_pri_cyll = 0x1f4

abbrev pub ata_pri_cylh : ℕ
ata_pri_cylh = 0x1f5

abbrev pub ata_pri_head : ℕ
ata_pri_head = 0x1f6

abbrev pub ata_pri_cmd : ℕ
ata_pri_cmd = 0x1f7

abbrev pub ata_hd_cmd_port : ℕ
ata_hd_cmd_port = 0x3f6

abbrev pub ata_cmd_read : ℕ
ata_cmd_read = 0x20

abbrev pub ata_cmd_write : ℕ
ata_cmd_write = 0x30

abbrev pub ata_err_bit : ℕ
ata_err_bit = 0x00

abbrev pub ata_drq_bit : ℕ
ata_drq_bit = 0x08

abbrev pub ata_seek_bit : ℕ
ata_seek_bit = 0x10

abbrev pub ata_fault_bit : ℕ
ata_fault_bit = 0x20

abbrev pub ata_rdy_bit : ℕ
ata_rdy_bit = 0x40

abbrev pub ata_busy_bit : ℕ
ata_busy_bit = 0x80

abbrev pub ata_master : ℕ
ata_master = 0xa0

-- What the status register reads, from the first reading on.
abbrev pub Status : Type 0
Status = ℕ → ℕ

-- The loop of `pata_wait` at its round `i`; `none`: the fuel ran out. `&&` is the source's.
pub pata_wait_loop : (fuel i : ℕ) → Status → Option ℕ
pata_wait_loop zero i status = none
pata_wait_loop (suc fuel) i status =
    let s = status i in
    let rest = pata_wait_loop fuel (i + 1) status in
    if bit_and s ata_busy_bit == 0
    then some 0
    else if ltb 4 i
        && ((not (s == 0) && not (ata_err_bit == 0)) || (not (s == 0) && not (ata_fault_bit == 0)))
    then some s
    else rest

-- The fuel is six rounds. The drive is not read.
pub pata_wait : ℕ → Status → Option ℕ
pata_wait drive status = pata_wait_loop 6 0 status

pub pata_select : ℕ → List (ℕ × ℕ) → List (ℕ × ℕ)
pata_select drive sent = outb (if bit_and drive 1 == 0 then 0xa0 else 0xb0) ata_pri_head sent

-- `initialize_pata`: what the two mask registers read is an argument.
pub initialize_pata : (low high : ℕ) → List (ℕ × ℕ) → List (ℕ × ℕ)
initialize_pata low high sent =
    outb (bit_and high (0xffffffff - 0x40)) 0xa1 (outb (bit_and low (0xffffffff - 0x04)) 0x21 sent)

-- The value and the number of readings taken. The test `retries--` leaves `retries` at -1 when the
-- retries are used up.
pub ready_loop : (retries reading : ℕ) → Status → ℤ × ℕ
ready_loop zero i status = (negsuc 0, i)
ready_loop (suc retries) i status =
    let rest = ready_loop retries (i + 1) status in
    if bit_and (status i) 0xc0 == ata_rdy_bit then (pos retries, i + 1) else rest

pub is_hd_ready : Status → ℤ × ℕ
is_hd_ready status = ready_loop 10000 0 status

-- The writes of `hd_rw`.
abbrev pub hd_command : (drive nsect sect_no head cyl cmd : ℕ) → List (ℕ × ℕ) → List (ℕ × ℕ)
hd_command drive nsect sect_no head cyl cmd sent = outb cmd ata_pri_cmd (
    outb (cyl / 2 ^ 8) ata_pri_cylh (
      outb (bit_and cyl 0xff) ata_pri_cyll (
        outb sect_no ata_pri_sectn (
          outb nsect ata_pri_sect
            (outb (bit_or (bit_or ata_master (drive * 2 ^ 4 % u32_mod)) head) ata_pri_head sent)))))

-- What has been sent, and the number of readings taken.
pub hd_rw : (drive nsect sect_no head cyl cmd : ℕ) → Status → List (ℕ × ℕ) → List (ℕ × ℕ) × ℕ
hd_rw drive nsect sect_no head cyl cmd status sent =
    let (ready, readings) = is_hd_ready status in
    if is_true ready
    then (hd_command drive nsect sect_no head cyl cmd sent, readings)
    else (sent, readings)

-- The first loop of `is_hd_busy`: the number of readings taken.
pub busy_loop : (rounds reading : ℕ) → Status → ℕ
busy_loop zero i status = i
busy_loop (suc rounds) i status =
    let rest = busy_loop rounds (i + 1) status in
    if bit_and (status i) (bit_or ata_busy_bit ata_rdy_bit) == ata_rdy_bit then i + 1 else rest

pub is_hd_busy : Status → ℕ
is_hd_busy status =
    let i = status (busy_loop 10000 0 status) in
    if bit_and i (bit_or (bit_or ata_busy_bit ata_rdy_bit) ata_seek_bit)
      == bit_or ata_seek_bit ata_rdy_bit
    then 0
    else 1

pub reset_hd_controller : List (ℕ × ℕ) → List (ℕ × ℕ)
reset_hd_controller sent = outb 0 ata_hd_cmd_port (outb 4 ata_hd_cmd_port sent)

-- The status that it reads is the argument.
pub is_hd_drq : ℕ → ℕ
is_hd_drq status = if bit_and status ata_drq_bit == 0 then 0 else 1
