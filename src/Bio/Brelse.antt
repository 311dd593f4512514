-- ===== src/Bio/Brelse.antt =====
-- What `brelse` of kernel/bio.c does with the order of the buffers and with what the cache shows.
use osn.Base.{ℕ, ◌≡◌, ◌≢◌, List, ◌∷◌, ◌++◌, ◌==◌, if◌then◌else◌}
use osn.Bio.{Buf, Bcache, Data, unhold}
use osn.Bio.View.{view, Sound}

-- The list as `brelse` of `b` leaves it.
abbrev pub released : List Buf → Buf → List Buf → List Buf
released pre b post =
    if (unhold b).refcnt == 0 then unhold b ∷ (pre ++ post) else pre ++ (unhold b ∷ post)

module _ (disk : ℕ → Data) (pre post : List Buf) (b : Buf) where
  unfoldable pub cache_of : List Buf → Bcache
  cache_of l = record { bufs = l; disk = disk }

  -- What `brelse` of `b` leaves.
  pub record ReleasedBuf (l : List Buf) : Type 0 where
    pub order : l ≡ released pre b post
    pub sound : Sound (cache_of l)
    pub views : (d n : ℕ) → d ≢ 0 → view (cache_of l) d n ≡ view (cache_of (pre ++ (b ∷ post))) d n
