-- ===== src/Prelude/Store.antt =====
-- Memories and tables as functions from an index, updated at one place.
use Prim.Native.Nat.{ℕ}
use mathlib.Core.Path.{◌≡◌}
use mathlib.Core.Logic.{◌≢◌}
use native.Mathlib.Omega.{arith}
use dev_os.Prelude.Tests.{◌==◌, if◌then◌else◌}

module _ {ℓ} {A : Type ℓ} where
  abbrev pub update : (ℕ → A) → ℕ → A → ℕ → A
  update m p v q = if p == q then v else m q

  pub update_self : (m : ℕ → A) (p : ℕ) (v : A) → update m p v p ≡ v
  update_self m p v = ground arith

  pub update_ne : (m : ℕ → A) (p q : ℕ) (v : A) → p ≢ q → update m p v q ≡ m q
  update_ne m p q v h = ground arith
