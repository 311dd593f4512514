-- ===== src/Fs/Namex.antt =====
-- `namex`, `namei` and `nameiparent` of kernel/fs.c. `cwd` is the slot of the process's directory and `de` what the stack
-- of `dirlookup` holds at first. The result is null, or an inode's slot with the name that was copied last.
use osn.Base.{
  ℕ, zero, suc, ◌+◌, List, [], ◌∷◌, Option, none, some, Bool, true, false, ◌==◌, ◌&&◌,
  if◌then◌else◌, length,
}
use osn.File.{Outcome, done, panicked, ◌>>=◌}
use osn.Fs.{Superblock}
use osn.Fs.Itable.{Files, iget, idup, ilock, iunlock}
use osn.Fs.Inode.{iput, iunlockput}
use osn.Fs.Path.{slash, skipelem}
use osn.Fs.Dir.{dirlookup, t_dir}

abbrev pub WalkResult : Type 0
WalkResult = Files × Option (ℕ × List ℕ)

-- `*path == '\0'`
abbrev pub is_end : List ℕ → Bool
is_end [] = true
is_end (c ∷ cs) = false

-- The loop's end for an inode that is no directory, or has no such entry.
pub give_up : Superblock → ℕ → Files → Outcome WalkResult
give_up sb ip s = iunlockput sb ip s >>= (λ s'. done (s', none))

-- What follows the loop.
pub end_walk : Superblock → Bool → ℕ → List ℕ → Files → Outcome WalkResult
end_walk sb parent ip name s =
    if parent then iput sb ip s >>= (λ s'. done (s', none)) else done (s, some (ip, name))

module _ (sb : Superblock) (parent : Bool) (de : ℕ → ℕ) where
  -- A turn of the loop with the element `name`: `last` says whether the path ends there, and `next` is the loop.
  pub walk_step : Bool → List ℕ → ℕ → Files → (ℕ → Files → Outcome WalkResult) → Outcome WalkResult
  unfolding give_up
  walk_step last name ip s next = ilock sb ip s >>= (λ s1.
      if (s1.inodes ip).copy.type == t_dir
      then (if parent && last
          then iunlock ip s1 >>= (λ s2. done (s2, some (ip, name)))
          else dirlookup sb ip name s1 de >>= (λ r. elim r.1 [
            | none ↦ give_up sb ip r.0
            | some found ↦ iunlockput sb ip r.0 >>= (λ s2. next found.0 s2)
          ]))
      else give_up sb ip s1)

  -- The loop, with fuel.
  pub namex_from : ℕ → List ℕ → List ℕ → ℕ → Files → Outcome WalkResult
  unfolding walk_step end_walk
  namex_from zero path name ip s = panicked
  namex_from (suc fuel) path name ip s = elim (skipelem path) [
    | none ↦ end_walk sb parent ip name s
    | some r ↦ walk_step (is_end r.0) r.1 ip s (λ ip' s'. namex_from fuel r.0 r.1 ip' s')
  ]

  -- `iget(ROOTDEV, ROOTINO)` or `idup(myproc()->cwd)`
  pub begin : List ℕ → ℕ → Files → Outcome (Files × ℕ)
  begin [] cwd s = done (idup cwd s, cwd)
  begin (c ∷ cs) cwd s = if c == slash then iget 1 1 s else done (idup cwd s, cwd)

  -- Each turn takes an element, which is at least a byte of the path.
  pub namex : List ℕ → List ℕ → ℕ → Files → Outcome WalkResult
  unfolding namex_from begin
  namex path name cwd s = begin path cwd s >>= (λ r. namex_from (length path + 1) path name r.1 r.0)

pub namei : Superblock → (ℕ → ℕ) → List ℕ → ℕ → Files → Outcome WalkResult
unfolding namex
namei sb de path cwd s = namex sb false de path [] cwd s

pub nameiparent : Superblock → (ℕ → ℕ) → List ℕ → ℕ → Files → Outcome WalkResult
unfolding namex
nameiparent sb de path cwd s = namex sb true de path [] cwd s
