-- ===== src/Log/Reserve.antt =====
-- The file system operations over the log of kernel/log.c, each of which calls `begin_op`, then `log_write` at most
-- MAXOPBLOCKS times, and `end_op`, in any order of their calls.
pub mod Fixed
pub mod Fits
use osn.Base.{ℕ, zero, suc, List, [], ◌∷◌, Option, none, some, get_elem?, set}
use osn.File.{Outcome, done, panicked}
use osn.Log.{LogState, Began, begun, sleeps, begin_op, end_op, log_write, maxopblocks}

-- A call by an operation: a new one begins, or the operation at an index writes a block or ends.
pub data Call : Type 0 where
  begins : Call
  writes : ℕ → ℕ → Call
  ends : ℕ → Call

-- The list without the entry at an index.
pub drop_at : ℕ → List ℕ → List ℕ
drop_at i [] = []
drop_at zero (c ∷ cs) = cs
drop_at (suc i) (c ∷ cs) = c ∷ drop_at i cs

module _ {B W : Type 0} (wake : W → W) where
  -- The log, the processes, and for each operation under way how many blocks it may still write. A call that sleeps,
  -- and one that an operation must not make, changes nothing.
  pub call : Call → LogState B × W × List ℕ → Outcome (LogState B × W × List ℕ)
  unfolding begin_op end_op log_write drop_at
  call begins (s, w, cs) = elim (begin_op s) [
    | sleeps ↦ done (s, w, cs)
    | begun s' ↦ done (s', w, maxopblocks ∷ cs)
  ]
  call (writes i b) (s, w, cs) = elim (get_elem? cs i) [
    | none ↦ done (s, w, cs)
    | some c ↦ elim c [
      | zero ↦ done (s, w, cs)
      | suc c' ↦ elim (log_write b s) [ panicked ↦ panicked | done s' ↦ done (s', w, set cs i c') ]
    ]
  ]
  call (ends i) (s, w, cs) = elim (get_elem? cs i) [
    | none ↦ done (s, w, cs)
    | some c ↦ elim (end_op wake s w) [
      | panicked ↦ panicked
      | done r ↦ done (r.0, r.1, drop_at i cs)
    ]
  ]

  pub calls : List Call → LogState B × W × List ℕ → Outcome (LogState B × W × List ℕ)
  unfolding call
  calls [] m = done m
  calls (x ∷ xs) m = elim (call x m) [ panicked ↦ panicked | done m' ↦ calls xs m' ]
