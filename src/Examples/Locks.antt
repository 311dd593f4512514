-- ===== src/Examples/Locks.antt =====
-- Runs of the locks of kernel/spinlock.c and kernel/sleeplock.c.
use osn.Base.{ℕ, update, ◌≡◌, refl, List, [], ◌∷◌, Bool, true, false}
use osn.Lock.{
  Cpu, run_steps, step, step_at, acquire_start, test_and_set, acquire_end, release_start,
  lock_release, holding, push_off,
}
use osn.Lock.Exclusion.{mutual_exclusion}

-- Processor 0 takes the lock while processor 1 spins, and gives it back.
abbrev turns : List ℕ
turns = 0 ∷ 1 ∷ 0 ∷ 1 ∷ 1 ∷ 0 ∷ 0 ∷ 0 ∷ 1 ∷ []

abbrev all_on : ℕ → Bool
all_on c = true

mutual_exclusion_example : ◌≡◌ {A = ℕ} 1 1
unfolding run_steps step step_at acquire_start test_and_set acquire_end release_start lock_release
    holding push_off update
mutual_exclusion_example = mutual_exclusion all_on turns 1 1 refl refl

abbrev user_mode : Cpu
user_mode = record { noff = 0; intena = false; intr = true }
