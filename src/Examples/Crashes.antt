-- ===== src/Examples/Crashes.antt =====
-- Commits of kernel/log.c that lose the power.
use osn.Base.{ℕ, ◌+◌, ◌≡◌, refl, List, [], ◌∷◌, true, false, ◌==◌, ◌||◌, arith, inr, ◌⊎◌}
use osn.Base.Int.{pos}
use osn.Log.{LogState, among, commit, restart, log_write}
use osn.Log.Crash.{restart-commit, Unchanged, Applied}
use osn.Log.Commit.{Done, commit-Done}
use osn.Log.Reserve.{Call, begins, writes, ends}
use osn.Log.Ops.{Sound, log_write-Sound}

-- Two logged blocks; the power is lost after four disk writes, when only one of them is installed.
abbrev logged : LogState ℕ
logged = record {
  start = 2;
  size = 10;
  outstanding = pos 0;
  committing = true;
  lh = 20 ∷ 21 ∷ [];
  disk = λ x. x;
  head = [];
  cache = λ x. x + 100;
  pins = λ x. 1;
  writes = 4;
}

restart-commit_example :
    ((restart 8 (commit logged)).head ≡ [])
    × (Unchanged logged (restart 8 (commit logged)) ⊎ Applied logged (restart 8 (commit logged)))
restart-commit_example =
    restart-commit 8 logged refl (inr (omega arith), (inr (omega arith), tt)) (omega arith)
      (omega arith)

abbrev working : LogState ℕ
working = record logged { outstanding = pos 1; committing = false }

log_write_example : Sound working × ((x : ℕ) → among x working.lh ≡ (among x working.lh || x == 21))
unfolding log_write
log_write_example =
    log_write-Sound 21 working working
      (record { header = omega arith; place = omega arith; distinct = (refl, (refl, tt)) }) refl

abbrev powered : LogState ℕ
powered = record logged { writes = 6 }

commit_example : Done powered (commit powered)
commit_example =
    commit-Done powered (omega arith) (inr (omega arith), (inr (omega arith), tt)) (omega arith)
      (omega arith)

-- Two operations begin, the first writes block 20, and both end.
abbrev idle_log : LogState ℕ
idle_log = record logged { size = 40; lh = []; outstanding = pos 0; committing = false }

abbrev some_calls : List Call
some_calls = begins ∷ begins ∷ writes 1 20 ∷ ends 1 ∷ ends 0 ∷ []
