-- ===== src/Examples/Memory.antt =====
-- Pages of kernel/kalloc.c and bytes of kernel/pipe.c.
use osn.Base.{
  ℕ, ◌≡◌, refl, ◌⊎◌, inl, List, [], ◌∷◌, ◌++◌, true, Option, some, replicate, arith, get_elem?,
}
use osn.Base.Int.{pos}
use osn.Kalloc.{Kmem, kalloc}
use osn.Kalloc.Freelist.{FreePages, Fresh, IsPage, null, link, kalloc-FreePages}
use osn.Proc.{Kernel, other_chan, boot}
use osn.Proc.Wakeup.{wakeup}
use osn.Pipe.{Pipe, Chans, pipewrite, piperead, killed_at, Called, returned}
use osn.Pipe.Ring.{Holds, holds, Reads}
use osn.Pipe.Calls.{WriteCall, pipewrite-Holds, piperead-Holds}

-- Memory without a free page, and with the page at 8192.
abbrev no_pages : Kmem
no_pages = record { mem = λ a. 0; freelist = 0 }

abbrev one_page : Kmem
one_page = record { mem = λ a. 0; freelist = 8192 }

one_page-FreePages : FreePages 4096 32768 one_page (8192 ∷ [])
one_page-FreePages = link 8192 [] (refl, omega arith, omega arith) tt null

kalloc_example :
    ((◌≡◌ {A = List ℕ} (8192 ∷ []) []) × (kalloc one_page ≡ (one_page, 0)))
    ⊎ ((pa : ℕ) × (qs : List ℕ) × (km : Kmem) × (◌≡◌ {A = List ℕ} (8192 ∷ []) (pa ∷ qs))
        × (kalloc one_page ≡ (km, pa))
        × IsPage 4096 32768 pa
        × Fresh pa qs
        × FreePages 4096 32768 km qs)
kalloc_example = kalloc-FreePages 4096 32768 one_page (omega arith) one_page-FreePages

-- A pipe whose counters are about to wrap; it holds two bytes.
abbrev two_bytes : Pipe
two_bytes = record {
  bytes = replicate 512 7;
  nread = 4294967294;
  nwrite = 0;
  readopen = true;
  writeopen = true;
}

two_bytes-Holds : Holds two_bytes (7 ∷ 7 ∷ [])
two_bytes-Holds = holds two_bytes (7 ∷ 7 ∷ []) refl (omega arith) (omega arith) refl refl

abbrev chans : Chans
chans = record { nread_chan = other_chan 536; nwrite_chan = other_chan 540 }

-- The user's buffer has 65, 66, 67 and no fourth byte.
abbrev buffer : ℕ → Option ℕ
buffer i = get_elem? (65 ∷ 66 ∷ 67 ∷ []) i

pipewrite_example :
    (k' : Kernel) × (pi' : Pipe) × (r : Called) × (new : List ℕ) × (pipewrite 0 chans buffer 0 5
        boot two_bytes
      ≡ (k', pi', r))
    × Holds pi' ((7 ∷ 7 ∷ []) ++ new)
    × Reads buffer 0 new
    × WriteCall 0 chans buffer 0 5 2 boot new k' r
unfolding killed_at
pipewrite_example =
    pipewrite-Holds 0 chans buffer 0 5 boot two_bytes (7 ∷ 7 ∷ []) two_bytes-Holds refl refl

-- Memory as the list of what was stored, the last first.
abbrev stored : ℕ → ℕ → List ℕ → List ℕ
stored i b mem = b ∷ mem

piperead_example :
    (pi' : Pipe) × (piperead 0 chans (λ j b w. some (stored j b w)) 9 boot two_bytes []
      ≡ (wakeup (some 0) (other_chan 540) boot, pi', 7 ∷ 7 ∷ [], returned (pos 2)))
    × Holds pi' []
piperead_example =
    piperead-Holds stored 0 chans 9 boot two_bytes (7 ∷ 7 ∷ []) [] two_bytes-Holds (inl (λ e. cc))
