-- ===== src/Fs/Dir/Lookup.antt =====
-- What `dirlookup` of kernel/fs.c finds in a directory.
use osn.Base.{
  ℕ, zero, suc, ◌+◌, ◌*◌, ◌/◌, ◌%◌, ◌≤◌, ◌<◌, ◌≡◌, inl, inr, refl, ap, ap₂, sym, ◌∙◌, List, [], ◌∷◌,
  Option, none, some, Bool, true, false, not, ◌==◌, ◌&&◌, ltb, if◌then◌else◌, arith, dec_lt, subst,
  Bool-cases, ℕ_discrete, lt→ltb,
}
use osn.File.{Outcome, done, panicked, ◌>>=◌}
use osn.Fs.{Superblock}
use osn.Fs.Dinode.{load16}
use osn.Fs.Itable.{Files, iget, ninode}
use osn.Fs.Itable.Unique.{Unique, Iget, no_inodes, got, iget-Iget, Referenced}
use osn.Fs.Transfer.{max_bytes}
use osn.Fs.Transfer.Reading.{byte_of, Mapped, Reads, read_count, readi-Reads}
use osn.Fs.Path.{dirsiz}
use osn.Fs.Dir.{
  dirlookup, lookup_from, read_entry, de_inum, de_name, string_at, names_equal, dirent_size, Entry,
  no_entry, entry_at, t_dir,
}

string_at-agree :
    (n a : ℕ) (m m' : ℕ → ℕ)
    → ((j : ℕ) → a ≤ j → j < a + n → m j ≡ m' j)
    → string_at n m a ≡ string_at n m' a
unfolding string_at
string_at-agree zero a m m' same = refl
string_at-agree (suc n) a m m' same =
    ap₂ (λ x l. if x == 0 then [] else x ∷ l) (same a (omega arith) (omega arith))
      (string_at-agree n (a + 1) m m' (λ j ge lt. same j (omega arith) (omega arith)))

module _ (sb : Superblock) (i : ℕ) (s : Files) (name : List ℕ) where
  -- The bytes of the entry at an offset of the directory, and whether it is one with the name.
  pub dirent : ℕ → ℕ → ℕ
  dirent off j = byte_of (s.inodes i).copy s.disk.cache (off + j)

  pub matches : ℕ → Bool
  unfolding dirent
  matches off = not (de_inum (dirent off) == 0) && names_equal dirsiz name (de_name (dirent off))

  -- A directory with whole entries and no missing block.
  pub record Directory : Type 0 where
    pub is_dir : (s.inodes i).copy.type ≡ t_dir
    pub small : (s.inodes i).copy.size ≤ max_bytes
    pub whole : (s.inodes i).copy.size % dirent_size ≡ 0
    pub mapped : Mapped sb i s 0 (s.inodes i).copy.size

  read_entry-dirent :
      (off : ℕ) (de : ℕ → ℕ)
      → Directory
      → off + dirent_size ≤ (s.inodes i).copy.size
      → (r : ℕ → ℕ) × (read_entry sb i off s de ≡ done (s, r))
        × ((j : ℕ) → j < dirent_size → r j ≡ dirent off j)
  unfolding read_entry dirent Mapped
  read_entry-dirent off de d le =
      let all : read_count sb i s off dirent_size ≡ dirent_size = ground (arith, d.small, le) in
      let r = subst (Reads sb i s 0 off dirent_size de) all (
        readi-Reads sb i s 0 off dirent_size de (omega (arith, d.small)) (omega arith) d.small
          (λ k ge lt. d.mapped k (omega arith) (omega (arith, lt, all, le)))) in
      (r.memory, rw r.run refl, λ j lt. r.bytes j ∙ ground arith)

  matches-read :
      (off : ℕ) (r : ℕ → ℕ)
      → ((j : ℕ) → j < dirent_size → r j ≡ dirent off j)
      → (not (de_inum r == 0) && names_equal dirsiz name (de_name r)) ≡ matches off
  unfolding matches load16
  matches-read off r same =
      ap₂ (λ n l. not (n == 0) && names_equal dirsiz name l)
        (ap₂ (λ a b. a + 256 * b) (same 0 (omega arith)) (same 1 (omega arith)))
        (string_at-agree dirsiz 2 r (dirent off) (λ j ge lt. same j (omega arith)))

  inum_same : (a b : ℕ → ℕ) → a 0 ≡ b 0 → a 1 ≡ b 1 → de_inum a ≡ de_inum b
  unfolding load16
  inum_same a b e0 e1 = ap₂ (λ x y. x + 256 * y) e0 e1

  -- What the loop of `dirlookup` finds: the first entry with the name.
  pub data Looked : Entry → Type 0 where
    absent :
        ((k : ℕ) → dirent_size * k < (s.inodes i).copy.size → matches (dirent_size * k) ≡ false)
        → Looked no_entry
    present :
        (k : ℕ)
        → dirent_size * k < (s.inodes i).copy.size
        → matches (dirent_size * k) ≡ true
        → ((j : ℕ) → j < k → matches (dirent_size * j) ≡ false)
        → Looked (entry_at (dirent_size * k) (de_inum (dirent (dirent_size * k))))

  lookup_from-end :
      (fuel off : ℕ) (de : ℕ → ℕ)
      → ltb off (s.inodes i).copy.size ≡ false
      → lookup_from (suc fuel) sb i name off s de ≡ done (s, no_entry)
  unfolding lookup_from
  lookup_from-end fuel off de e = ground arith

  lookup_from-found :
      (fuel off : ℕ) (de r : ℕ → ℕ)
      → ltb off (s.inodes i).copy.size ≡ true
      → read_entry sb i off s de ≡ done (s, r)
      → (not (de_inum r == 0) && names_equal dirsiz name (de_name r)) ≡ true
      → lookup_from (suc fuel) sb i name off s de ≡ done (s, entry_at off (de_inum r))
  unfolding lookup_from
  lookup_from-found fuel off de r e run m = rw (lookup_from, e, run, m) refl

  lookup_from-next :
      (fuel off : ℕ) (de r : ℕ → ℕ)
      → ltb off (s.inodes i).copy.size ≡ true
      → read_entry sb i off s de ≡ done (s, r)
      → (not (de_inum r == 0) && names_equal dirsiz name (de_name r)) ≡ false
      → lookup_from (suc fuel) sb i name off s de
        ≡ lookup_from fuel sb i name (off + dirent_size) s r
  unfolding lookup_from
  lookup_from-next fuel off de r e run m = rw (lookup_from, e, run, m) refl

  lookup_from-Looked :
      (fuel k : ℕ) (de : ℕ → ℕ)
      → Directory
      → (s.inodes i).copy.size ≤ dirent_size * (k + fuel)
      → ((j : ℕ) → j < k → matches (dirent_size * j) ≡ false)
      → (e : Entry) × (lookup_from fuel sb i name (dirent_size * k) s de ≡ done (s, e)) × Looked e
  unfolding lookup_from
  lookup_from-Looked zero k de d enough before =
      (no_entry, refl, absent (λ j lt. before j (omega arith)))
  lookup_from-Looked (suc fuel) k de d enough before =
      elim (dec_lt (dirent_size * k) (s.inodes i).copy.size) [
        | no ge ↦
            let stop : ltb (dirent_size * k) (s.inodes i).copy.size ≡ false = ground arith in
            (
              no_entry,
              lookup_from-end fuel (dirent_size * k) de stop,
              absent (λ j lt. before j (omega arith)),
            )
        | yes lt ↦
            let more = lt→ltb (dirent_size * k) (s.inodes i).copy.size lt in
            let (r, run, same) =
              read_entry-dirent (dirent_size * k) de d (omega (arith, d.whole)) in
            elim (Bool-cases (matches (dirent_size * k))) [
              | inl m ↦ (
                entry_at (dirent_size * k) (de_inum (dirent (dirent_size * k))),
                lookup_from-found fuel (dirent_size * k) de r more run
                      (matches-read (dirent_size * k) r same ∙ m)
                    ∙ ap (λ n. done (s, entry_at (dirent_size * k) n))
                        (inum_same r (dirent (dirent_size * k)) (same 0 (omega arith))
                          (same 1 (omega arith))),
                present k lt m before,
              )
              | inr m ↦
                  let (e, run', looked) =
                    lookup_from-Looked fuel (k + 1) r d (omega arith) (earlier k m before) in
                  let next : dirent_size * (k + 1) ≡ dirent_size * k + dirent_size = omega arith in
                  (
                    e,
                    lookup_from-next fuel (dirent_size * k) de r more run
                          (matches-read (dirent_size * k) r same ∙ m)
                        ∙ (ap (λ o. lookup_from fuel sb i name o s r) (sym next) ∙ run'),
                    looked,
                  )
            ]
      ]
    where
      earlier :
          (k : ℕ)
          → matches (dirent_size * k) ≡ false
          → ((j : ℕ) → j < k → matches (dirent_size * j) ≡ false)
          → (j : ℕ) → j < k + 1
          → matches (dirent_size * j) ≡ false
      earlier k m before j lt = elim (ℕ_discrete j k) [
        | yes e ↦ ap (λ x. matches (dirent_size * x)) e ∙ m
        | no ne ↦ before j (omega arith)
      ]

  -- How `dirlookup` ends in a directory.
  pub data Dirlookup : Outcome (Files × Option (ℕ × ℕ)) → Type 0 where
    not_there : Looked no_entry → Dirlookup (done (s, none))
    table_full :
        (off inum : ℕ)
        → Looked (entry_at off inum)
        → ((j : ℕ) → j < ninode → 0 < (s.inodes j).ref)
        → Dirlookup panicked
    there :
        (off inum slot : ℕ) (r : Files)
        → Looked (entry_at off inum)
        → Referenced (s.inodes i).dev inum slot s r
        → r.disk ≡ s.disk
        → Dirlookup (done (r, some (slot, off)))

  gotten :
      (off inum : ℕ)
      → Looked (entry_at off inum)
      → (o : Outcome (Files × ℕ)) → Iget (s.inodes i).dev inum s o
      → Dirlookup (o >>= (λ g. done (g.0, some (g.1, off))))
  gotten off inum l panicked (no_inodes full) = table_full off inum l (λ j lt. (full j lt).0)
  gotten off inum l (done _) (got slot r ref same) = there off inum slot r l ref same

  -- In a directory whose size is within the largest file and a multiple of the size of an entry, all of whose blocks are
  -- there, and with a table of inodes whose entries in use are of different inodes, `dirlookup` finds the first entry in
  -- use with the name and returns its inode, with one more reference to it, or null where there is no such entry; it
  -- panics only where the table of inodes is full.
  pub dirlookup-Dirlookup :
      (de : ℕ → ℕ) → Directory → Unique s → Dirlookup (dirlookup sb i name s de)
  unfolding dirlookup
  dirlookup-Dirlookup de d uniq =
      let (e, run, looked) =
        lookup_from-Looked ((s.inodes i).copy.size / dirent_size + 1) 0 de d (omega arith)
          (λ j lt. absurd (omega arith)) in
      let kind : ((s.inodes i).copy.type == t_dir) ≡ true = ground (arith, d.is_dir) in
      rw kind (rw run (outcome e looked))
    where
      outcome :
          (e : Entry)
          → Looked e
          → Dirlookup (elim e [
            | no_entry ↦ done (s, none)
            | entry_at off inum ↦
                iget (s.inodes i).dev inum s >>= (λ g. done (g.0, some (g.1, off)))
          ])
      outcome no_entry l = not_there l
      outcome (entry_at off inum) l =
          gotten off inum l (iget (s.inodes i).dev inum s) (iget-Iget (s.inodes i).dev inum s uniq)
