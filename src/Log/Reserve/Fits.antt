-- ===== src/Log/Reserve/Fits.antt =====
-- The room that `begin_op` of kernel/log.c keeps for the operations under way is enough.
use osn.Base.{ℕ, ◌+◌, ◌≤◌, ◌<◌, ◌≡◌, List, [], ◌∷◌, false, length}
use osn.Base.Int.{pos}
use osn.Log.{LogState, maxopblocks, logsize}

abbrev pub total : List ℕ → ℕ
total [] = 0
total (c ∷ cs) = c + total cs

-- Every operation under way may write at most this many blocks more.
abbrev Capped : List ℕ → Type 0
Capped [] = Unit {0}
Capped (c ∷ cs) = (c ≤ maxopblocks) × Capped cs

module _ {B : Type 0} where
  -- The number of operations under way is counted, and the log has room for all that they may still write.
  pub record Reserved (s : LogState B) (cs : List ℕ) : Type 0 where
    pub count : s.outstanding ≡ pos (length cs)
    pub few : length cs ≤ 3
    pub capped : Capped cs
    pub room : length s.lh + total cs ≤ logsize
    pub place : logsize < s.size
    pub idle : s.committing ≡ false
