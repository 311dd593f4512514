-- ===== src/Fs/Dir.antt =====
-- Directories of kernel/fs.c: `namecmp`, `dirlookup` and `dirlink`. A name is the list of its bytes before the NUL, and
-- `de` is a memory of its own in which `struct dirent de` stands at address 0.
pub mod Lookup
use osn.Base.{
  ℕ, zero, suc, ◌+◌, ◌-◌, ◌*◌, ◌/◌, ◌%◌, ◌≡◌, List, [], ◌∷◌, Option, none, some, Bool, true, false,
  not, ◌==◌, ◌&&◌, ltb, if◌then◌else◌, take, update,
}
use osn.Base.Word.{add32}
use osn.File.{Outcome, done, panicked, ◌>>=◌}
use osn.Fs.{Disk, Block, Superblock}
use osn.Fs.Dinode.{Dinode, load16, store16}
use osn.Fs.Itable.{Inode, Files, iget}
use osn.Fs.Inode.{iput}
use osn.Fs.Transfer.{readi, writei, kernel_copyout, kernel_copyin}
use osn.Fs.Path.{dirsiz}

abbrev pub t_dir : ℕ
t_dir = 1

-- `sizeof(struct dirent)`
abbrev pub dirent_size : ℕ
dirent_size = 16

-- `namecmp(s, t) == 0`, the two strings compared over `n` bytes.
pub names_equal : ℕ → List ℕ → List ℕ → Bool
names_equal zero s t = true
names_equal (suc n) [] [] = true
names_equal (suc n) [] (c ∷ t) = false
names_equal (suc n) (b ∷ s) [] = false
names_equal (suc n) (b ∷ s) (c ∷ t) = let rest = names_equal n s t in if b == c then rest else false

-- The string in `n` bytes at an address.
pub string_at : ℕ → (ℕ → ℕ) → ℕ → List ℕ
string_at zero m a = []
string_at (suc n) m a = let rest = string_at n m (a + 1) in if m a == 0 then [] else m a ∷ rest

-- `de.inum` and `de.name`
abbrev pub de_inum : (ℕ → ℕ) → ℕ
de_inum de = load16 de 0

abbrev pub de_name : (ℕ → ℕ) → List ℕ
de_name de = string_at dirsiz de 2

-- What the loop of `dirlookup` finds: no entry, or an entry's offset and its inode number.
pub data Entry : Type 0 where
  no_entry : Entry
  entry_at : ℕ → ℕ → Entry

-- Reads the entry at `off`.
pub read_entry : Superblock → ℕ → ℕ → Files → (ℕ → ℕ) → Outcome (Files × (ℕ → ℕ))
read_entry sb i off s de = do
  (s', de', count) ← readi kernel_copyout sb i 0 off dirent_size s de
  elim count [ none ↦ panicked | some n ↦ if n == dirent_size then done (s', de') else panicked ]

-- The loop of `dirlookup` at `off`, with fuel.
pub lookup_from : ℕ → Superblock → ℕ → List ℕ → ℕ → Files → (ℕ → ℕ) → Outcome (Files × Entry)
lookup_from zero sb i name off s de = done (s, no_entry)
lookup_from (suc fuel) sb i name off s de = elim (ltb off (s.inodes i).copy.size) [
  | false ↦ done (s, no_entry)
  | true ↦ elim (read_entry sb i off s de) [
    | panicked ↦ panicked
    | done r ↦ elim (not (de_inum r.1 == 0) && names_equal dirsiz name (de_name r.1)) [
      | true ↦ done (r.0, entry_at off (de_inum r.1))
      | false ↦ lookup_from fuel sb i name (off + dirent_size) r.0 r.1
    ]
  ]
]

-- The inode found, with its entry's offset.
pub dirlookup : Superblock → ℕ → List ℕ → Files → (ℕ → ℕ) → Outcome (Files × Option (ℕ × ℕ))
dirlookup sb i name s de =
    if (s.inodes i).copy.type == t_dir
    then lookup_from ((s.inodes i).copy.size / dirent_size + 1) sb i name 0 s de >>= (λ r.
      elim r.1 [
        | no_entry ↦ done (r.0, none)
        | entry_at off inum ↦ iget (s.inodes i).dev inum r.0 >>= (λ g. done (g.0, some (g.1, off)))
      ])
    else panicked

-- The second loop of `dirlink`: the offset of the first empty entry, or of the end.
pub empty_from : ℕ → Superblock → ℕ → ℕ → Files → (ℕ → ℕ) → Outcome (Files × ℕ × (ℕ → ℕ))
empty_from zero sb i off s de = done (s, off, de)
empty_from (suc fuel) sb i off s de = elim (ltb off (s.inodes i).copy.size) [
  | false ↦ done (s, off, de)
  | true ↦ elim (read_entry sb i off s de) [
    | panicked ↦ panicked
    | done r ↦ elim (de_inum r.1 == 0) [
      | true ↦ done (r.0, off, r.1)
      | false ↦ empty_from fuel sb i (off + dirent_size) r.0 r.1
    ]
  ]
]

-- `strncpy(de.name, name, DIRSIZ)`
pub store_name : ℕ → ℕ → List ℕ → (ℕ → ℕ) → ℕ → ℕ
store_name zero a name de = de
store_name (suc n) a [] de = update (store_name n (a + 1) [] de) a 0
store_name (suc n) a (c ∷ cs) de = update (store_name n (a + 1) cs de) a c

-- `false` is the result -1.
pub dirlink : Superblock → ℕ → List ℕ → ℕ → Files → (ℕ → ℕ) → Outcome (Files × Bool)
unfolding store_name
dirlink sb i name inum s de = dirlookup sb i name s de >>= (λ r. elim r.1 [
  | some found ↦ iput sb found.0 r.0 >>= (λ s'. done (s', false))
  | none ↦ empty_from ((r.0.inodes i).copy.size / dirent_size + 1) sb i 0 r.0 de >>= (λ e.
      let de' = store16 (store_name dirsiz 2 name e.2) 0 inum in
      writei (kernel_copyin de') sb i 0 e.1 dirent_size e.0 >>= (λ w. elim w.1 [
        | none ↦ panicked
        | some n ↦ if n == dirent_size then done (w.0, true) else panicked
      ]))
])
