-- ===== src/Vm.antt =====
-- kernel/vm.c: the look up of a page, and the copies from user memory. A memory is its bytes by their addresses. The
-- bytes copied are a list, which the caller stores from `dst` on; `false` is the result -1.
pub mod Copyin
pub mod Copyinstr
use osn.Base.{
  ℕ, zero, suc, ◌+◌, ◌-◌, ◌*◌, ◌/◌, ◌%◌, ◌^◌, ◌≡◌, List, [], ◌∷◌, ◌++◌, Option, none, some, Bool,
  true, false, ◌==◌, ltb, if◌then◌else◌, min,
}
use osn.Base.Bits.{test_bit}
use osn.File.{Outcome, done, panicked, ◌>>=◌}
use osn.Kstring.{Memory}

abbrev pub page_size : ℕ
page_size = 4096

-- `MAXVA`
abbrev pub max_va : ℕ
max_va = 2 ^ 38

-- A load of `n` bytes, the lowest first.
pub load_bytes : ℕ → Memory → ℕ → ℕ
load_bytes zero m a = 0
load_bytes (suc n) m a = m a + 256 * load_bytes n m (a + 1)

-- `PX(level, va)`
abbrev pub px : ℕ → ℕ → ℕ
px level va = va / 2 ^ (12 + 9 * level) % 512

-- `PTE2PA`
abbrev pub pte2pa : ℕ → ℕ
pte2pa pte = pte / 2 ^ 10 * 2 ^ 12 % 2 ^ 64

-- The loop of `walk` from a level down, without allocation: the address of the entry at level 0, or null.
pub walk_from : ℕ → Memory → ℕ → ℕ → Option ℕ
walk_from zero m pagetable va = some (pagetable + 8 * px 0 va)
walk_from (suc level) m pagetable va =
    let pte = load_bytes 8 m (pagetable + 8 * px (suc level) va) in
    let below = walk_from level m (pte2pa pte) va in if test_bit pte 0 then below else none

-- `walk(pagetable, va, 0)`
pub walk_page : Memory → ℕ → ℕ → Outcome (Option ℕ)
unfolding walk_from
walk_page m pagetable va = if ltb va max_va then done (walk_from 2 m pagetable va) else panicked

-- The page of an entry that is valid and the user's, or 0.
pub page_of : Memory → Option ℕ → ℕ
page_of m none = 0
page_of m (some at) =
    let entry = load_bytes 8 m at in
    if test_bit entry 0 then (if test_bit entry 4 then pte2pa entry else 0) else 0

pub walkaddr : Memory → ℕ → ℕ → Outcome ℕ
unfolding walk_page page_of
walkaddr m pagetable va =
    if ltb va max_va then walk_page m pagetable va >>= (λ pte. done (page_of m pte)) else done 0

-- `memmove` of `n` bytes.
pub bytes_at : ℕ → Memory → ℕ → List ℕ
bytes_at zero m a = []
bytes_at (suc n) m a = m a ∷ bytes_at n m (a + 1)

-- `PGROUNDDOWN`
abbrev pub round_down : ℕ → ℕ
round_down va = va / page_size * page_size

-- `n`, as the loops of the copies compute it.
abbrev pub part : ℕ → ℕ → ℕ
part va len = min len (page_size - va % page_size)

-- The bytes and the loop's rest.
abbrev pub then_bytes : List ℕ → List ℕ × Bool → List ℕ × Bool
then_bytes xs r = (xs ++ r.0, r.1)

-- The loop of `copyin`, with fuel.
pub copyin_from : ℕ → Memory → ℕ → ℕ → ℕ → Outcome (List ℕ × Bool)
copyin_from zero m pagetable va len = done ([], true)
copyin_from (suc fuel) m pagetable va len = elim (ltb 0 len) [
  | false ↦ done ([], true)
  | true ↦ elim (walkaddr m pagetable (round_down va)) [
    | panicked ↦ panicked
    | done pa ↦ elim (pa == 0) [
      | true ↦ done ([], false)
      | false ↦
          copyin_from fuel m pagetable ((round_down va + page_size) % 2 ^ 64) (len - part va len)
          >>= (λ r. done (then_bytes (bytes_at (part va len) m (pa + va % page_size)) r))
    ]
  ]
]

-- A turn copies at least a byte.
pub copyin : Memory → ℕ → ℕ → ℕ → Outcome (List ℕ × Bool)
unfolding copyin_from
copyin m pagetable va len = copyin_from len m pagetable va len

-- The inner loop of `copyinstr` over `n` bytes: the bytes copied, and whether the last is a NUL.
pub string_part : ℕ → Memory → ℕ → List ℕ × Bool
string_part zero m a = ([], false)
string_part (suc n) m a =
    let rest = string_part n m (a + 1) in
    if m a == 0 then (0 ∷ [], true) else (m a ∷ rest.0, rest.1)

-- The loop of `copyinstr`, with fuel.
pub copyinstr_from : ℕ → Memory → ℕ → ℕ → ℕ → Outcome (List ℕ × Bool)
unfolding string_part
copyinstr_from zero m pagetable va len = done ([], false)
copyinstr_from (suc fuel) m pagetable va len = elim (ltb 0 len) [
  | false ↦ done ([], false)
  | true ↦ elim (walkaddr m pagetable (round_down va)) [
    | panicked ↦ panicked
    | done pa ↦ elim (pa == 0) [
      | true ↦ done ([], false)
      | false ↦
          let here = string_part (part va len) m (pa + va % page_size) in
          elim here.1 [
            | true ↦ done here
            | false ↦
                copyinstr_from fuel m pagetable ((round_down va + page_size) % 2 ^ 64)
                  (len - part va len)
                >>= (λ r. done (then_bytes here.0 r))
          ]
    ]
  ]
]

pub copyinstr : Memory → ℕ → ℕ → ℕ → Outcome (List ℕ × Bool)
unfolding copyinstr_from
copyinstr m pagetable va max = copyinstr_from max m pagetable va max
