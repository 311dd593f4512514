-- ===== src/Examples/Buffers.antt =====
-- The buffer cache of kernel/bio.c.
use osn.Base.{refl, [], ◌∷◌, true, false, arith}
use osn.Bio.{Buf, Bcache, bread}
use osn.Bio.Bget.{count, Bget}
use osn.Bio.View.{Sound}
use osn.Bio.View.Bread.{Bread, bread-Bread}

-- A buffer that is held and one that is free.
abbrev held_buf : Buf
held_buf = record {
  id = 0;
  valid = true;
  dev = 1;
  blockno = 5;
  locked = true;
  refcnt = 1;
  bytes = λ i. 7;
}

abbrev free_buf : Buf
free_buf = record {
  id = 1;
  valid = false;
  dev = 0;
  blockno = 0;
  locked = false;
  refcnt = 0;
  bytes = λ i. 0;
}

abbrev two_bufs : Bcache
two_bufs = record { bufs = free_buf ∷ held_buf ∷ []; disk = λ b i. 7 }

two_bufs-Sound : Sound two_bufs
unfolding count
two_bufs-Sound = record {
  ids = ((λ e. omega arith, tt), (tt, tt));
  one_buffer = λ dev blockno nz. ground arith;
  clean = (λ e v. absurd (ground arith), (λ e v. refl, tt));
}

bread_example : Bread 1 9 two_bufs (bread 1 9 two_bufs)
bread_example =
    bread-Bread 1 9 two_bufs (λ e. omega arith) two_bufs-Sound (omega arith, (omega arith, tt))
