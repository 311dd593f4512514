-- ===== src/Examples/Files.antt =====
-- Open files and writes of kernel/file.c.
use osn.Base.{ℕ, zero, suc, ◌+◌, ◌≡◌, refl, List, [], ◌∷◌, true, none, if◌then◌else◌, ◌==◌, ap, sym}
use mathlib.Core.Option.{some-injective}
use osn.Base.Int.{pos}
use osn.File.{File, fd_inode, done, fileclose, release_of, nothing}
use osn.File.Refs.{holders, Exact, Releases, fileclose-Exact}
use osn.File.Transfer.{Layers}
use osn.Proc.{no_file}

abbrev open_file : File
open_file = record no_file { type = fd_inode; ref = 2; writable = true; ip = 3 }

-- One file that two pointers reach, and a free slot.
abbrev files : List File
files = open_file ∷ no_file ∷ []

files-Exact : Exact files (0 ∷ 0 ∷ [])
unfolding holders
files-Exact zero f e = ap (λ x. x.ref) (sym (some-injective open_file f e))
files-Exact (suc zero) f e = ap (λ x. x.ref) (sym (some-injective no_file f e))
files-Exact (suc (suc i)) f e = cc

fileclose_example :
    (fs' : List File) × (fileclose 0 files
      ≡ done
          (fs', if holders 0 (0 ∷ []) == 0 then release_of open_file open_file.type else nothing))
    × Releases open_file (release_of open_file open_file.type)
    × Exact fs' (0 ∷ [])
fileclose_example = fileclose-Exact files (0 ∷ []) 0 open_file files-Exact refl

-- Layers that count the bytes written.
abbrev counting : Layers ℕ
counting = record {
  piperead = λ p a n w. (w, n);
  pipewrite = λ p a n w. (w, n);
  dev_read = λ m. none;
  dev_write = λ m. none;
  readi = λ ip a o n w. (w, n);
  writei = λ ip a o n w. (w + n, pos n);
  ilock = λ ip w. w;
  iunlock = λ ip w. w;
  begin_op = λ w. w;
  end_op = λ w. w;
}
