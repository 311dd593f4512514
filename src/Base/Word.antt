-- ===== src/Base/Word.antt =====
-- The C `uint` of this kernel: 32 bits that wrap.
use Prim.Native.Nat.{ℕ, ◌+◌, ◌-◌, ◌*◌, ◌/◌, ◌%◌, ◌^◌}
use osn.Base.Tests.{◌==◌, if◌then◌else◌}

abbrev pub uint_mod : ℕ
uint_mod = 2 ^ 32

abbrev pub add32 : ℕ → ℕ → ℕ
add32 a b = (a + b) % uint_mod

abbrev pub sub32 : ℕ → ℕ → ℕ
sub32 a b = (a % uint_mod + uint_mod - b % uint_mod) % uint_mod

abbrev pub mul32 : ℕ → ℕ → ℕ
mul32 a b = (a * b) % uint_mod

-- RISC-V `divu`, which is what a C division of two `uint`s compiles to: by zero it gives all ones.
abbrev pub divu32 : ℕ → ℕ → ℕ
divu32 a b = if b == 0 then uint_mod - 1 else a / b
