-- ===== src/File.antt =====
-- kernel/file.c: the table of open files. `ftable.lock` is held through each function, so each is
-- one step. `panicked` is a call of `panic`.
pub mod Refs
pub mod Transfer
use osn.Base.{
  ℕ, zero, suc, ◌+◌, ◌-◌, ◌*◌, ◌/◌, ◌≡◌, List, [], ◌∷◌, Option, none, some, Bool, true, false, ◌==◌,
  ltb, ◌||◌, ◌⊎◌, inl, inr, refl, if◌then◌else◌, get_elem?, set,
}
use osn.Base.Int.{ℤ, pos, negsuc, minus_one, ltb_ℤ}

pub data FileType : Type 0 where
  fd_none fd_pipe fd_inode fd_device : FileType

-- `struct file`; `pipe` and `ip` are the addresses it points to.
pub record File : Type 0 where
  pub type : FileType
  pub ref : ℕ
  pub readable : Bool
  pub writable : Bool
  pub pipe : ℕ
  pub ip : ℕ
  pub off : ℕ
  pub major : ℤ

pub data Outcome {ℓ} (A : Type ℓ) : Type ℓ where
  done : A → Outcome A
  panicked : Outcome A

infixl 5 ◌>>=◌
abbrev pub ◌>>=◌ {ℓ κ} : {A : Type ℓ} {B : Type κ} → Outcome A → (A → Outcome B) → Outcome B
done a >>= f = f a
panicked >>= f = panicked

-- The slot of the first file with no reference, from index `i` on.
pub find_free : ℕ → List File → Option ℕ
find_free i [] = none
find_free i (f ∷ fs) = if f.ref == 0 then some i else find_free (suc i) fs

-- Changes the file at a slot.
at_slot : (File → File) → ℕ → List File → List File
at_slot g i [] = []
at_slot g zero (f ∷ fs) = g f ∷ fs
at_slot g (suc i) (f ∷ fs) = f ∷ at_slot g i fs

-- The new slot, or null.
pub filealloc : List File → List File × Option ℕ
unfolding at_slot find_free
filealloc fs = elim (find_free 0 fs) [
  | none ↦ (fs, none)
  | some i ↦ (at_slot (λ f. record f { ref = 1 }) i fs, some i)
]

pub filedup : ℕ → List File → Outcome (List File)
unfolding at_slot
filedup i fs = elim (get_elem? fs i) [
  | none ↦ panicked
  | some f ↦
      if ltb f.ref 1 then panicked else done (at_slot (λ f. record f { ref = f.ref + 1 }) i fs)
]

-- What `fileclose` releases with the last reference: the rest of the call after `ftable.lock` is
-- `pipeclose` or `iput` on it.
pub data Released : Type 0 where
  nothing : Released
  pipe_end : ℕ → Bool → Released
  inode : ℕ → Released

pub release_of : File → FileType → Released
release_of f fd_none = nothing
release_of f fd_pipe = pipe_end f.pipe f.writable
release_of f fd_inode = inode f.ip
release_of f fd_device = inode f.ip

pub fileclose : ℕ → List File → Outcome (List File × Released)
unfolding at_slot release_of
fileclose i fs = elim (get_elem? fs i) [
  | none ↦ panicked
  | some f ↦
      if ltb f.ref 1
      then panicked
      else if ltb 0 (f.ref - 1)
      then done (at_slot (λ f. record f { ref = f.ref - 1 }) i fs, nothing)
      else done (at_slot (λ f. record f { ref = 0; type = fd_none }) i fs, release_of f f.type)
]

pub Outcome-cases {ℓ} : {A : Type ℓ} (o : Outcome A) → (o ≡ panicked) ⊎ ((a : A) × (o ≡ done a))
Outcome-cases panicked = inl refl
Outcome-cases (done a) = inr (a, refl)
