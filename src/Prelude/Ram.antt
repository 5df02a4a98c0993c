-- ===== src/Prelude/Ram.antt =====
-- Memory as a function from addresses to cells, with a write of one cell.
pub mod Words
use Prim.Native.Nat.{ℕ}
use bless_os.Prelude.Tests.{◌==◌, if◌then◌else◌}

abbrev pub Ram : Type 0
Ram = ℕ → ℕ

abbrev pub store : Ram → ℕ → ℕ → Ram
store m a v b = if a == b then v else m b
