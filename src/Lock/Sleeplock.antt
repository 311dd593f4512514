-- ===== src/Lock/Sleeplock.antt =====
-- kernel/sleeplock.c: a lock that a process sleeps for. Each function is one step under the spin lock `lk->lk`;
-- `acquiresleep` that sleeps is called again when it is woken.
use osn.Base.{
  ℕ, ◌≡◌, ◌≢◌, refl, none, some, Bool, true, false, ◌==◌, ◌&&◌, if◌then◌else◌, get_elem?, ==_refl,
  ==_ne,
}
use osn.Proc.{Kernel, Chan}
use osn.Proc.Wakeup.{sleep, wakeup}

-- `struct sleeplock`
pub record Sleeplock : Type 0 where
  pub locked : Bool
  pub pid : ℕ

pub initsleeplock : Sleeplock
initsleeplock = record { locked = false; pid = 0 }

-- `myproc()->pid`
pub pid_of : ℕ → Kernel → ℕ
pid_of me k = elim (get_elem? k.procs me) [ none ↦ 0 | some p ↦ p.pid ]

-- The turn of `acquiresleep`'s loop, and whether the lock is taken; if not, the process sleeps at `chan`.
pub acquiresleep : ℕ → Chan → Kernel → Sleeplock → Kernel × Sleeplock × Bool
unfolding pid_of
acquiresleep me chan k lk =
    if lk.locked
    then (sleep me chan k, lk, false)
    else (k, record { locked = true; pid = pid_of me k }, true)

pub releasesleep : ℕ → Chan → Kernel → Sleeplock → Kernel × Sleeplock
releasesleep me chan k lk = (wakeup (some me) chan k, record { locked = false; pid = 0 })

pub holdingsleep : ℕ → Kernel → Sleeplock → Bool
unfolding pid_of
holdingsleep me k lk = lk.locked && lk.pid == pid_of me k

-- A free lock is taken by the process that asks, which then holds it; another process with another pid does
-- not hold it, and sleeps if it asks.
pub acquiresleep_lem :
    (me other : ℕ) (chan : Chan) (k : Kernel) (lk : Sleeplock)
    → lk.locked ≡ false
    → pid_of me k ≢ pid_of other k
    → (lk' : Sleeplock) × (acquiresleep me chan k lk ≡ (k, lk', true))
      × (holdingsleep me k lk' ≡ true)
      × (holdingsleep other k lk' ≡ false)
      × (acquiresleep other chan k lk' ≡ (sleep other chan k, lk', false))
unfolding acquiresleep holdingsleep
acquiresleep_lem me other chan k lk l ne = (
  record { locked = true; pid = pid_of me k },
  rw l refl,
  ==_refl (pid_of me k),
  ==_ne (pid_of me k) (pid_of other k) ne,
  refl,
)
