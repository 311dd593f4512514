-- ===== src/File/Refs.antt =====
-- The reference counts of the open files of kernel/file.c and the pointers to them.
use osn.Base.{
  ap, ℕ, zero, suc, ◌+◌, ◌-◌, ◌≡◌, ◌≢◌, refl, ◌∙◌, ◌⊎◌, List, [], ◌∷◌, none, some, ltb, ◌==◌,
  if◌then◌else◌, get_elem?, arith, Bool-cases, Option-cases, inl, inr,
}
use osn.File.{
  File, done, panicked, nothing, Released, pipe_end, inode, fd_pipe, fd_inode, fd_device, find_free,
  at_slot, filealloc, filedup, fileclose, release_of, fd_none,
}

-- How many of the pointers `hs` point to file `i`.
unfoldable pub holders : ℕ → List ℕ → ℕ
holders i [] = 0
holders i (h ∷ hs) = (if h == i then 1 else 0) + holders i hs

holders_self : (i : ℕ) (hs : List ℕ) → holders i (i ∷ hs) ≡ 1 + holders i hs
unfolding holders
holders_self i hs = ground arith

-- Every file counts exactly the pointers to it. The pointers are all those that the kernel keeps:
-- the descriptors of the processes and what a system call holds meanwhile.
abbrev pub Exact : List File → List ℕ → Type 0
Exact fs hs = (i : ℕ) (f : File) → get_elem? fs i ≡ some f → f.ref ≡ holders i hs

get_elem?-at_slot :
    (g : File → File) (i j : ℕ) (fs : List File)
    → get_elem? (at_slot g i fs) j ≡ (
        if i == j
        then elim (get_elem? fs j) [ none ↦ none | some f ↦ some (g f) ]
        else get_elem? fs j)
unfolding at_slot
get_elem?-at_slot g i j [] = ground arith
get_elem?-at_slot g zero zero (f ∷ fs) = refl
get_elem?-at_slot g zero (suc j) (f ∷ fs) = ground arith
get_elem?-at_slot g (suc i) zero (f ∷ fs) = ground arith
get_elem?-at_slot g (suc i) (suc j) (f ∷ fs) = ground (arith, get_elem?-at_slot g i j fs)

-- The slot holds a file with no reference.
abbrev pub Free : List File → ℕ → Type 0
Free fs j = (f : File) × (get_elem? fs j ≡ some f) × (f.ref ≡ 0)

find_free_lem :
    (fs : List File) (i n : ℕ) → find_free i fs ≡ some n → (j : ℕ) × (n ≡ i + j) × Free fs j
unfolding find_free
find_free_lem [] i n e = cc
find_free_lem (f ∷ fs) i n e = elim (Bool-cases (f.ref == 0)) [
  | inl z ↦ (0, ground arith, (f, refl, ground arith))
  | inr nz ↦
      let (j, at, free) = find_free_lem fs (suc i) n (ground arith) in (suc j, omega arith, free)
]

find_free-none :
    (fs : List File) (i : ℕ)
    → find_free i fs ≡ none
    → (j : ℕ) (f : File) → get_elem? fs j ≡ some f
    → f.ref ≢ 0
unfolding find_free
find_free-none [] i e j f g = cc
find_free-none (x ∷ fs) i e zero f g = ground arith
find_free-none (x ∷ fs) i e (suc j) f g = find_free-none fs (suc i) (ground arith) j f g

-- One more pointer to a file whose count goes up by one.
Exact-add :
    (fs : List File) (hs : List ℕ) (i : ℕ) (g : File → File)
    → Exact fs hs
    → ((f : File) → get_elem? fs i ≡ some f → (g f).ref ≡ f.ref + 1)
    → Exact (at_slot g i fs) (i ∷ hs)
unfolding holders
Exact-add fs hs i g v up j f e = elim (Option-cases (get_elem? fs j)) [
  | inl n ↦ ground (arith, get_elem?-at_slot g i j fs)
  | inr (x, h) ↦ ground (arith, get_elem?-at_slot g i j fs, v j x h, up x)
]

filealloc_found :
    (fs : List File) (n : ℕ)
    → find_free 0 fs ≡ some n
    → filealloc fs ≡ (at_slot (λ f. record f { ref = 1 }) n fs, some n)
unfolding filealloc
filealloc_found fs n e = rw (e, filealloc)

-- `filealloc` hands out a file that no pointer reaches, and the counts stay exact with the pointer
-- that it returns.
pub filealloc-Exact :
    (fs : List File) (hs : List ℕ) (i : ℕ)
    → Exact fs hs
    → (filealloc fs).1 ≡ some i
    → (holders i hs ≡ 0) × Exact (filealloc fs).0 (i ∷ hs)
unfolding filealloc
filealloc-Exact fs hs i v e = elim (Option-cases (find_free 0 fs)) [
  | inl n ↦ absurd (ground arith)
  | inr (n, h) ↦ found n h
]
  where
    found : (n : ℕ) → find_free 0 fs ≡ some n → (holders i hs ≡ 0) × Exact (filealloc fs).0 (i ∷ hs)
    found n h =
        let (j, at, (f, here, z)) = find_free_lem fs 0 n h in
        let same : n ≡ i = ground arith in
        let here' : get_elem? fs i ≡ some f = ground arith in
        (
          ground (arith, v i f here'),
          rw (filealloc_found fs n h, same)
              (Exact-add fs hs i (λ f. record f { ref = 1 }) v (λ x hx. ground arith)),
        )

-- `filealloc` fails only when every file is in use, and then changes nothing.
pub filealloc-none :
    (fs : List File)
    → (filealloc fs).1 ≡ none
    → ((filealloc fs).0 ≡ fs) × ((j : ℕ) (f : File) → get_elem? fs j ≡ some f → f.ref ≢ 0)
unfolding filealloc
filealloc-none fs e = elim (Option-cases (find_free 0 fs)) [
  | inl n ↦ (rw (n, filealloc), find_free-none fs 0 n)
  | inr (n, h) ↦ absurd (ground arith)
]

-- `filedup` panics exactly when no pointer reaches the file, and otherwise the counts stay exact with
-- one pointer more.
pub filedup-Exact :
    (fs : List File) (hs : List ℕ) (i : ℕ) (f : File)
    → Exact fs hs
    → get_elem? fs i ≡ some f
    → ((holders i hs ≡ 0) × (filedup i fs ≡ panicked))
      ⊎ ((fs' : List File) × (filedup i fs ≡ done fs') × Exact fs' (i ∷ hs))
unfolding filedup
filedup-Exact fs hs i f v e = elim (Bool-cases (ltb f.ref 1)) [
  | inl free ↦ inl (ground (arith, v i f e), ground arith)
  | inr held ↦ inr (
    at_slot (λ f. record f { ref = f.ref + 1 }) i fs,
    ground arith,
    Exact-add fs hs i (λ f. record f { ref = f.ref + 1 }) v (λ x hx. refl),
  )
]

Exact-drop :
    (fs : List File) (hs : List ℕ) (i : ℕ) (g : File → File)
    → Exact fs (i ∷ hs)
    → ((f : File) → get_elem? fs i ≡ some f → (g f).ref + 1 ≡ f.ref)
    → Exact (at_slot g i fs) hs
unfolding holders
Exact-drop fs hs i g v down j f e = elim (Option-cases (get_elem? fs j)) [
  | inl n ↦ absurd (ground (arith, get_elem?-at_slot g i j fs))
  | inr (x, h) ↦ ground (arith, get_elem?-at_slot g i j fs, v j x h, down x)
]

-- What the last pointer to a file stands for: the end of a pipe, or the inode of a file or of a device.
pub record Releases (f : File) (r : Released) : Type 0 where
  pub of_pipe : f.type ≡ fd_pipe → r ≡ pipe_end f.pipe f.writable
  pub of_inode : f.type ≡ fd_inode → r ≡ inode f.ip
  pub of_device : f.type ≡ fd_device → r ≡ inode f.ip

release_of-Releases : (f : File) → Releases f (release_of f f.type)
unfolding release_of
release_of-Releases f = record {
  of_pipe = λ e. ap (release_of f) e;
  of_inode = λ e. ap (release_of f) e;
  of_device = λ e. ap (release_of f) e;
}

-- Closing one of the pointers to a file never panics and keeps the counts exact for the rest; it
-- releases what the file stands for, the end of the pipe or the inode, exactly when that was the last pointer.
pub fileclose-Exact :
    (fs : List File) (hs : List ℕ) (i : ℕ) (f : File)
    → Exact fs (i ∷ hs)
    → get_elem? fs i ≡ some f
    → (fs' : List File) × (fileclose i fs
        ≡ done (fs', if holders i hs == 0 then release_of f f.type else nothing))
      × Releases f (release_of f f.type)
      × Exact fs' hs
unfolding fileclose
fileclose-Exact fs hs i f v e = elim (Bool-cases (ltb 0 (f.ref - 1))) [
  | inl more ↦ (
    at_slot (λ f. record f { ref = f.ref - 1 }) i fs,
    ground (arith, count),
    release_of-Releases f,
    Exact-drop fs hs i (λ f. record f { ref = f.ref - 1 }) v (λ x hx. ground (arith, count)),
  )
  | inr last ↦ (
    at_slot (λ f. record f { ref = 0; type = fd_none }) i fs,
    ground (arith, count),
    release_of-Releases f,
    Exact-drop fs hs i (λ f. record f { ref = 0; type = fd_none }) v
        (λ x hx. ground (arith, count)),
  )
]
  where
    count : f.ref ≡ 1 + holders i hs
    count = v i f e ∙ holders_self i hs
