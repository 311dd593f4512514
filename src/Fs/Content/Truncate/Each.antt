-- ===== src/Fs/Content/Truncate/Each.antt =====
-- The loops of `itrunc` of kernel/fs.c over an inode's addresses, as loops over a list of addresses.
use osn.Base.{
  ℕ, zero, suc, ◌+◌, ◌*◌, ◌%◌, ◌≤◌, ◌<◌, ◌≡◌, ◌≢◌, inl, inr, refl, ap, sym, ◌∙◌, not, ◌&&◌, ltb,
  if◌then◌else◌, update, update_ne, arith,
}
use osn.File.{done, ◌>>=◌, Outcome-cases}
use osn.Log.{log_write}
use osn.Fs.{Disk, Block, Superblock, bpb, bblock, modify}
use osn.Fs.Dinode.{Dinode, load32}
use osn.Fs.Bitmap.{bfree, unmark}
use osn.Fs.Content.{free_addr, free_direct, free_entries, with_addr}
use osn.Fs.Content.Truncate.{free_each}

module _ (sb : Superblock) (one : sb.size ≤ bpb) where
  free_each-agree :
      (f g : ℕ → ℕ) (i n : ℕ) (d : Disk)
      → ((j : ℕ) → i ≤ j → f j ≡ g j)
      → free_each sb f i n d ≡ free_each sb g i n d
  unfolding free_each
  free_each-agree f g i zero d same = refl
  free_each-agree f g i (suc n) d same =
      rw (same i (omega arith)) (elim (Outcome-cases (free_addr sb (g i) d)) [
        | inl p ↦ rw p refl
        | inr (e, run) ↦ rw run (free_each-agree f g (i + 1) n e (λ j ge. same j (omega arith)))
      ])

  -- The inode with the addresses from `i` on set to 0.
  pub cleared_from : ℕ → ℕ → Dinode → Dinode
  cleared_from i zero ip = ip
  cleared_from i (suc n) ip = cleared_from (i + 1) n (with_addr i 0 ip)

  pub cleared_from-addrs :
      (i n j : ℕ) (ip : Dinode)
      → (cleared_from i n ip).addrs j ≡ (if not (ltb j i) && ltb j (i + n) then 0 else ip.addrs j)
  unfolding cleared_from update
  cleared_from-addrs i zero j ip = ground arith
  cleared_from-addrs i (suc n) j ip =
      cleared_from-addrs (i + 1) n j (with_addr i 0 ip) ∙ ground arith

  -- Nothing else of it changes.
  pub cleared_from-same :
      (i n : ℕ) (ip : Dinode)
      → cleared_from i n ip ≡ record ip { addrs = (cleared_from i n ip).addrs }
  unfolding cleared_from
  cleared_from-same i zero ip = refl
  cleared_from-same i (suc n) ip = cleared_from-same (i + 1) n (with_addr i 0 ip)

  pub free_direct-each :
      (i n : ℕ) (ip : Dinode) (d : Disk)
      → free_direct sb i n ip d
        ≡ (free_each sb ip.addrs i n d >>= (λ r. done (cleared_from i n ip, r)))
  unfolding free_direct free_each cleared_from
  free_direct-each i zero ip d = refl
  free_direct-each i (suc n) ip d = elim (Outcome-cases (free_addr sb (ip.addrs i) d)) [
    | inl p ↦ rw p refl
    | inr (e, run) ↦ rw run (
        free_direct-each (i + 1) n (with_addr i 0 ip) e
        ∙ ap (λ o. o >>= (λ r. done (cleared_from (i + 1) n (with_addr i 0 ip), r)))
            (free_each-agree (update ip.addrs i 0) ip.addrs (i + 1) n e
              (λ j ge. update_ne ip.addrs i j 0 (λ e'. omega arith))))
  ]

  log_write-cache : (b y : ℕ) (d e : Disk) → log_write b d ≡ done e → e.cache y ≡ d.cache y
  unfolding log_write
  log_write-cache b y d e run = ground arith

  modify-cache :
      (b y : ℕ) (bytes : Block) (d e : Disk)
      → modify b bytes d ≡ done e
      → b ≢ y
      → e.cache y ≡ d.cache y
  unfolding modify
  modify-cache b y bytes d e run ne =
      log_write-cache b y (record d { cache = update d.cache b bytes }) e run
      ∙ update_ne d.cache b y bytes ne

  pub free_addr-frame :
      (a y : ℕ) (d e : Disk)
      → a < sb.size
      → y ≢ bblock sb 0
      → free_addr sb a d ≡ done e
      → e.cache y ≡ d.cache y
  unfolding free_addr bfree
  free_addr-frame a y d e lt ne run =
      let same : bblock sb 0 ≡ bblock sb a = omega arith in
      let apart : bblock sb a ≢ y = λ e'. ne (sym e' ∙ sym same) in
      ground
        (arith, modify-cache (bblock sb a) y (unmark (d.cache (bblock sb a)) (a % bpb)) d e, apart)

  pub free_entries-each :
      (at : ℕ) (f : ℕ → ℕ) (i n : ℕ) (d : Disk)
      → at ≢ bblock sb 0
      → ((j : ℕ) → i ≤ j → j < i + n → f j < sb.size)
      → ((j : ℕ) → f j ≡ load32 (d.cache at) (4 * j))
      → free_entries sb at i n d ≡ free_each sb f i n d
  unfolding free_entries free_each
  free_entries-each at f i zero d apart inside same = refl
  free_entries-each at f i (suc n) d apart inside same =
      rw (sym (same i)) (elim (Outcome-cases (free_addr sb (f i) d)) [
        | inl p ↦ rw p refl
        | inr (e, run) ↦ rw run (
            free_entries-each at f (i + 1) n e apart
              (λ j ge lt. inside j (omega arith) (omega arith))
              (λ j.
                same j
                ∙ ap (λ c. load32 c (4 * j))
                    (sym (
                      free_addr-frame (f i) at d e (inside i (omega arith) (omega arith)) apart
                        run))))
      ])
