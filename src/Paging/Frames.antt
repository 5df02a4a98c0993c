-- ===== src/Paging/Frames.antt =====
-- The bitmap of src/kernel/paging.c as a set of frames.
use bless_os.Prelude.{ℕ, ◌/◌, ◌%◌, ◌≡◌, arith, ◌==◌, if◌then◌else◌, Bool-cases, inl, inr}
use bless_os.Prelude.Ram.{Ram}
use bless_os.Paging.{set_frame, clear_frame}
use bless_os.Paging.Bitmap.{bit, bit-set, bit-cleared}

-- Whether a frame is taken: 1 or 0.
abbrev pub taken : Ram → ℕ → ℕ
taken frames n = bit (n % 32) (frames (n / 32))

-- `set_frame` takes the frame of the address, and no other.
pub taken-set_frame :
    (addr n : ℕ) (frames : Ram)
    → taken (set_frame addr frames) n ≡ (if n == addr / 4096 then 1 else taken frames n)
unfolding set_frame
taken-set_frame addr n frames =
    let f = addr / 4096 in
    elim (Bool-cases (f / 32 == n / 32)) [
      | inl same ↦
          let e : f / 32 ≡ n / 32 = ground arith in
          rw (same, e) (ground (arith, bit-set (n % 32) (f % 32) (frames (n / 32))))
      | inr other ↦ rw other (ground arith)
    ]

-- `clear_frame` frees the frame of the address, and no other.
pub taken-clear_frame :
    (addr n : ℕ) (frames : Ram)
    → taken (clear_frame addr frames) n ≡ (if n == addr / 4096 then 0 else taken frames n)
unfolding clear_frame
taken-clear_frame addr n frames =
    let f = addr / 4096 in
    elim (Bool-cases (f / 32 == n / 32)) [
      | inl same ↦
          let e : f / 32 ≡ n / 32 = ground arith in
          rw (same, e)
            (ground
              (arith, bit-cleared (n % 32) (f % 32) (frames (n / 32)) (omega arith) (omega arith)))
      | inr other ↦ rw other (ground arith)
    ]
