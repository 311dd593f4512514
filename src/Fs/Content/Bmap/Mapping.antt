-- ===== src/Fs/Content/Bmap/Mapping.antt =====
-- How `bmap` of kernel/fs.c ends.
use osn.Base.{ℕ, suc, ◌+◌, ◌-◌, ◌≤◌, ◌<◌, inl, inr, refl, sym, ◌∙◌, ltb, arith, Bool-cases}
use osn.File.{Outcome, done, panicked, ◌>>=◌}
use osn.Fs.{Disk, Superblock}
use osn.Fs.Room.{Room, less-Room}
use osn.Fs.Dinode.{Dinode, ndirect}
use osn.Fs.Content.{bmap, nindirect, take_addr, take_entry, with_addr}
use osn.Fs.Content.Bmap.{
  Full, Full-all, Sane, Mapped, TakeAddr, no_block, had, took, take_addr-TakeAddr,
}
use osn.Fs.Content.Bmap.Direct.{block_of-direct, direct-Mapped}
use osn.Fs.Content.Bmap.Link.{Linked, Linked-had, Linked-took}
use osn.Fs.Content.Bmap.Entry.{
  TakeEntry, no_entry, had_entry, took_entry, take_entry-TakeEntry, entry-had, entry-took,
}

-- How `bmap` ends.
pub data Bmap (sb : Superblock) (n bn : ℕ) (ip : Dinode) (d : Disk)
    : Outcome (Dinode × Disk × ℕ) → Type 0 where
  out_of_range : ndirect + nindirect ≤ bn → Bmap sb n bn ip d panicked
  no_blocks : Full sb d → Bmap sb n bn ip d panicked
  mapped :
      (ip' : Dinode) (d' : Disk) (addr : ℕ)
      → Mapped sb n bn ip d ip' d' addr
      → Bmap sb n bn ip d (done (ip', d', addr))

module _ (sb : Superblock) (n bn : ℕ) (ip : Dinode) (d : Disk) (s : Sane sb ip d)
    (room : Room (n + 5) d) where
  direct-Bmap :
      bn < ndirect
      → (o : Outcome (Dinode × Disk × ℕ)) → TakeAddr n sb bn ip d o
      → Bmap sb n bn ip d o
  direct-Bmap lt panicked (no_block all) = no_blocks (Full-all sb d all)
  direct-Bmap lt (done _) (had nz) = mapped ip d (ip.addrs bn) (record {
    nonzero = nz;
    here = block_of-direct ip d.cache bn lt;
    others = λ k ne. refl;
    old = λ nz'. block_of-direct ip d.cache bn lt;
    new = λ z. absurd (nz (sym (block_of-direct ip d.cache bn lt) ∙ z));
    zeroed = λ z. absurd (nz (sym (block_of-direct ip d.cache bn lt) ∙ z));
    kept = record { keeps = λ x lt' u. u; frame = λ y lt' u out ne. refl };
    sane = s;
    room = less-Room (n + 5) n d (omega arith) room;
  })
  direct-Bmap lt (done _) (took b r z t) =
      mapped (with_addr bn b ip) r b (direct-Mapped bn s lt z t)

  entry-Bmap :
      (at : ℕ) (ip1 : Dinode) (d1 : Disk)
      → ndirect ≤ bn
      → Linked sb (suc (suc (suc n))) at ip d ip1 d1
      → (o : Outcome (Disk × ℕ)) → TakeEntry n sb at (bn - ndirect) d1 o
      → Bmap sb n bn ip d (o >>= (λ r. done (ip1, r.0, r.1)))
  entry-Bmap at ip1 d1 ge l panicked (no_entry all) = no_blocks (l.full all)
  entry-Bmap at ip1 d1 ge l (done _) (had_entry nz) =
      mapped ip1 d1 _
        (entry-had l s.small bn ge nz (less-Room (suc (suc (suc n))) n d1 (omega arith) l.room))
  entry-Bmap at ip1 d1 ge l (done _) (took_entry b r r' z t m) =
      mapped ip1 r' b (entry-took l s.small bn ge z t m)

  link-Bmap :
      ndirect ≤ bn
      → (o : Outcome (Dinode × Disk × ℕ)) → TakeAddr (suc (suc (suc n))) sb ndirect ip d o
      → Bmap sb n bn ip d
          (o >>= (λ l. take_entry sb l.2 (bn - ndirect) l.1 >>= (λ r. done (l.0, r.0, r.1))))
  link-Bmap ge panicked (no_block all) = no_blocks (Full-all sb d all)
  link-Bmap ge (done _) (had nz) =
      let l =
        Linked-had sb (suc (suc (suc n))) ip d s
          (less-Room (n + 5) (suc (suc (suc n))) d (omega arith) room) nz in
      entry-Bmap (ip.addrs ndirect) ip d ge l (take_entry sb (ip.addrs ndirect) (bn - ndirect) d)
        (take_entry-TakeEntry n sb (ip.addrs ndirect) (bn - ndirect) d l.room l.map_used)
  link-Bmap ge (done _) (took b r z t) =
      let l = Linked-took s z t in
      entry-Bmap b (with_addr ndirect b ip) r ge l (take_entry sb b (bn - ndirect) r)
        (take_entry-TakeEntry n sb b (bn - ndirect) r l.room l.map_used)

  -- `bmap`, with room in the log for five blocks, returns the block that the inode has for `bn`; where it has none,
  -- it takes a free block for it, and a free indirect block where that is wanted, without a change to any other
  -- block of the file. It panics only for a number out of range, or where at most one block is free.
  pub bmap-Bmap : Bmap sb n bn ip d (bmap sb bn ip d)
  unfolding bmap
  bmap-Bmap = elim (Bool-cases (ltb bn ndirect)) [
    | inl direct ↦ rw direct (
        direct-Bmap (ground arith) (take_addr sb bn ip d) (
          take_addr-TakeAddr n sb bn ip d (less-Room (n + 5) (suc (suc n)) d (omega arith) room)
            s.map_used))
    | inr above ↦ elim (Bool-cases (ltb (bn - ndirect) nindirect)) [
      | inr out ↦
          let far : ndirect + nindirect ≤ bn = ground arith in rw (above, out) (out_of_range far)
      | inl inside ↦
          rw (above, inside)
            (link-Bmap (ground arith) (take_addr sb ndirect ip d) (
              take_addr-TakeAddr (suc (suc (suc n))) sb ndirect ip d
                (less-Room (n + 5) (suc (suc (suc (suc (suc n))))) d (omega arith) room)
                s.map_used))
    ]
  ]
