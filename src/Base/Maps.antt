-- ===== src/Base/Maps.antt =====
-- Arrays as functions from their indices, and what a write changes.
use Prim.Native.Nat.{ℕ}
use native.Mathlib.Omega.{arith}
use mathlib.Core.Path.{◌≡◌, fun_ext}
use mathlib.Core.Logic.{◌≢◌}
use osn.Base.Tests.{◌==◌, if◌then◌else◌, ==_refl, ==_ne}

module _ {ℓ} {A : Type ℓ} where
  unfoldable pub update : (ℕ → A) → ℕ → A → ℕ → A
  update f i v j = if i == j then v else f j

  pub update_self : (f : ℕ → A) (i : ℕ) (v : A) → update f i v i ≡ v
  unfolding update
  update_self f i v = rw ==_refl

  pub update_ne : (f : ℕ → A) (i j : ℕ) (v : A) → i ≢ j → update f i v j ≡ f j
  unfolding update
  update_ne f i j v h = rw (==_ne i j h)

  pub update_get : (f : ℕ → A) (i : ℕ) → update f i (f i) ≡ f
  unfolding update
  update_get f i = fun_ext (λ j. ground arith)
