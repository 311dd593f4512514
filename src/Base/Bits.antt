-- ===== src/Base/Bits.antt =====
-- The C tests and assignments of one bit: `x & (1 << k)`, `x |= 1 << k` and `x &= ~(1 << k)`.
use Prim.Native.Nat.{ℕ, zero, suc, ◌+◌, ◌*◌, ◌/◌, ◌%◌, ◌<◌}
use mathlib.Core.Path.{◌≡◌}
use mathlib.Core.Bool.{Bool, true, false}
use native.Mathlib.Omega.{arith}
use osn.Base.Tests.{◌==◌, if◌then◌else◌}

unfoldable pub test_bit : ℕ → ℕ → Bool
test_bit x zero = x % 2 == 1
test_bit x (suc k) = test_bit (x / 2) k

pub set_bit : ℕ → ℕ → ℕ
set_bit x zero = x / 2 * 2 + 1
set_bit x (suc k) = x % 2 + 2 * set_bit (x / 2) k

pub clear_bit : ℕ → ℕ → ℕ
clear_bit x zero = x / 2 * 2
clear_bit x (suc k) = x % 2 + 2 * clear_bit (x / 2) k

tail_bit : (d x : ℕ) → d < 2 → (d + 2 * x) / 2 ≡ x
tail_bit d x h = omega arith

pub test_bit-set_bit :
    (k j x : ℕ) → test_bit (set_bit x k) j ≡ (if j == k then true else test_bit x j)
unfolding test_bit set_bit
test_bit-set_bit zero zero x = ground arith
test_bit-set_bit zero (suc j) x =
    let e : (x / 2 * 2 + 1) / 2 ≡ x / 2 = omega arith in rw e (ground arith)
test_bit-set_bit (suc k) zero x = ground arith
test_bit-set_bit (suc k) (suc j) x =
    rw (tail_bit (x % 2) (set_bit (x / 2) k) (omega arith))
      (ground (arith, test_bit-set_bit k j (x / 2)))

pub test_bit-clear_bit :
    (k j x : ℕ) → test_bit (clear_bit x k) j ≡ (if j == k then false else test_bit x j)
unfolding test_bit clear_bit
test_bit-clear_bit zero zero x = ground arith
test_bit-clear_bit zero (suc j) x =
    let e : x / 2 * 2 / 2 ≡ x / 2 = omega arith in rw e (ground arith)
test_bit-clear_bit (suc k) zero x = ground arith
test_bit-clear_bit (suc k) (suc j) x =
    rw (tail_bit (x % 2) (clear_bit (x / 2) k) (omega arith))
      (ground (arith, test_bit-clear_bit k j (x / 2)))
