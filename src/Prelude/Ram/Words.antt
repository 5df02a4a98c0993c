-- ===== src/Prelude/Ram/Words.antt =====
-- 32-bit accesses to memory by bytes, low byte first.
use Prim.Native.Nat.{ℕ, ◌+◌, ◌*◌, ◌/◌, ◌%◌, ◌^◌, ◌<◌, ◌≤◌}
use mathlib.Core.Path.{◌≡◌}
use mathlib.Core.Logic.{◌⊎◌}
use native.Mathlib.Omega.{arith}
use bless_os.Prelude.Ram.{Ram, store}

unfoldable pub load32 : Ram → ℕ → ℕ
load32 m a = m a + 256 * m (a + 1) + 65536 * m (a + 2) + 16777216 * m (a + 3)

unfoldable pub store32 : Ram → ℕ → ℕ → Ram
store32 m a v =
    store (store (store (store m a (v % 256)) (a + 1) (v / 256 % 256)) (a + 2) (v / 65536 % 256))
      (a + 3) (v / 16777216 % 256)

pub load32-store32 : (m : Ram) (a v : ℕ) → v < 2 ^ 32 → load32 (store32 m a v) a ≡ v
unfolding load32 store32
load32-store32 m a v h = ground arith

pub load32-store32_far :
    (m : Ram) (a v b : ℕ) → (b + 4 ≤ a) ⊎ (a + 4 ≤ b) → load32 (store32 m a v) b ≡ load32 m b
unfolding load32 store32
load32-store32_far m a v b h = ground arith

pub load32-store_far :
    (m : Ram) (a v b : ℕ) → (b + 4 ≤ a) ⊎ (a < b) → load32 (store m a v) b ≡ load32 m b
unfolding load32
load32-store_far m a v b h = ground arith

pub store32-outside : (m : Ram) (a v b : ℕ) → (b < a) ⊎ (a + 4 ≤ b) → store32 m a v b ≡ m b
unfolding store32
store32-outside m a v b h = ground arith
