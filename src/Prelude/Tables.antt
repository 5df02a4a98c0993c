-- ===== src/Prelude/Tables.antt =====
-- Facts about all values of a small range, by evaluation.
use Prim.Native.Nat.{ℕ, zero, suc, ◌<◌}
use mathlib.Core.Path.{◌≡◌}
use mathlib.Core.Bool.{Bool, true, ◌&&◌}
use native.Mathlib.Omega.{arith}

unfoldable pub all_below : ℕ → (ℕ → Bool) → Bool
all_below zero p = true
all_below (suc n) p = p n && all_below n p

pub all_below_at : (n : ℕ) (p : ℕ → Bool) (x : ℕ) → all_below n p ≡ true → x < n → p x ≡ true
unfolding all_below
all_below_at zero p x h lt = absurd (omega arith)
all_below_at (suc n) p x h lt = ground (arith, all_below_at n p x)

-- Two small arguments.
pub all_below_at₂ :
    (m n : ℕ) (p : ℕ → ℕ → Bool) (x y : ℕ)
    → all_below m (λ a. all_below n (p a)) ≡ true
    → x < m
    → y < n
    → p x y ≡ true
all_below_at₂ m n p x y h hx hy =
    all_below_at n (p x) y (all_below_at m (λ a. all_below n (p a)) x h hx) hy
