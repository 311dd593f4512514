-- ===== src/Fs/Path.antt =====
-- `skipelem` of kernel/fs.c. A path is the list of its bytes before the NUL; the name copied is the list of the bytes
-- that `namecmp` reads of it.
pub mod Elements
use osn.Base.{
  ℕ, zero, suc, ◌+◌, ◌≡◌, List, [], ◌∷◌, ◌++◌, Option, none, some, Bool, true, false, ◌==◌,
  if◌then◌else◌, take,
}

abbrev pub dirsiz : ℕ
dirsiz = 14

abbrev pub slash : ℕ
slash = 47

-- `while(*path == '/') path++;`
pub skip_slashes : List ℕ → List ℕ
skip_slashes [] = []
skip_slashes (c ∷ cs) = if c == slash then skip_slashes cs else c ∷ cs

-- `while(*path != '/' && *path != 0) path++;`: the bytes passed, and the rest.
pub pass_elem : List ℕ → List ℕ × List ℕ
pass_elem [] = ([], [])
pass_elem (c ∷ cs) =
    let rest = pass_elem cs in if c == slash then ([], c ∷ cs) else (c ∷ rest.0, rest.1)

-- The rest of the path and the name, or null.
pub skipelem : List ℕ → Option (List ℕ × List ℕ)
unfolding skip_slashes pass_elem
skipelem path = elim (skip_slashes path) [
  | [] ↦ none
  | c ∷ cs ↦ some (skip_slashes (pass_elem (c ∷ cs)).1, take dirsiz (pass_elem (c ∷ cs)).0)
]
