-- ===== src/Fs/Content/Truncate/Whole.antt =====
-- What `itrunc` of kernel/fs.c frees of an inode.
use osn.Base.{
  ℕ, zero, suc, ◌+◌, ◌*◌, ◌≤◌, ◌<◌, ◌≡◌, ◌≢◌, inl, inr, refl, ap, sym, ◌∙◌, Bool, true, false, not,
  ◌==◌, ◌&&◌, ◌||◌, if◌then◌else◌, update, update_self, update_ne, arith, Bool-cases, ℕ_discrete,
  subst,
}
use osn.File.{done}
use osn.Fs.{Disk, Block, Superblock, bpb, bblock}
use osn.Fs.Room.{RoomFor}
use osn.Fs.Dinode.{Dinode, ndirect, load32}
use osn.Fs.Bitmap.{bfree}
use osn.Fs.Bitmap.Used.{used}
use osn.Fs.Content.{truncate, free_indirect, with_addr, nindirect}
use osn.Fs.Content.Truncate.{Lost, Lost-trans, bfree-Lost, free_each, member, free_each-Lost}
use osn.Fs.Content.Truncate.Each.{
  cleared_from, cleared_from-addrs, cleared_from-same, free_direct-each, free_entries-each,
}

-- The entry `j` of the indirect block.
abbrev pub entry_of : Dinode → (ℕ → Block) → ℕ → ℕ
entry_of ip cache j = load32 (cache (ip.addrs ndirect)) (4 * j)

-- The inode has the block: directly, in its indirect block, or as that.
pub owns : Dinode → (ℕ → Block) → ℕ → Bool
owns ip cache x =
    (not (ip.addrs ndirect == 0)
      && (x == ip.addrs ndirect || member (entry_of ip cache) 0 nindirect x))
    || member ip.addrs 0 ndirect x

-- The addresses of the inode that are not 0 are different blocks of the disk in use, and no block of the map.
pub record Owned (sb : Superblock) (ip : Dinode) (d : Disk) : Type 0 where
  pub inhabited : 0 < sb.size
  pub direct :
      (j : ℕ)
      → j < ndirect
      → ip.addrs j ≢ 0
      → (ip.addrs j < sb.size) × (used sb d.cache (ip.addrs j) ≡ true)
  pub distinct : (j k : ℕ) → j < k → k ≤ ndirect → ip.addrs j ≢ 0 → ip.addrs j ≢ ip.addrs k
  pub indirect :
      ip.addrs ndirect ≢ 0
      → (ip.addrs ndirect < sb.size)
        × (used sb d.cache (ip.addrs ndirect) ≡ true)
        × (ip.addrs ndirect ≢ bblock sb 0)
  pub entries :
      ip.addrs ndirect ≢ 0
      → (j : ℕ) → j < nindirect
      → entry_of ip d.cache j ≢ 0
      → (entry_of ip d.cache j < sb.size) × (used sb d.cache (entry_of ip d.cache j) ≡ true)
  pub entries_distinct :
      ip.addrs ndirect ≢ 0
      → (j k : ℕ) → j < k
      → k < nindirect
      → entry_of ip d.cache j ≢ 0
      → entry_of ip d.cache j ≢ entry_of ip d.cache k
  pub entries_apart :
      ip.addrs ndirect ≢ 0
      → (j k : ℕ) → j ≤ ndirect
      → k < nindirect
      → ip.addrs j ≢ 0
      → ip.addrs j ≢ entry_of ip d.cache k

member-false :
    (f : ℕ → ℕ) (i n x : ℕ)
    → ((j : ℕ) → i ≤ j → j < i + n → f j ≢ 0 → f j ≢ x)
    → member f i n x ≡ false
unfolding member
member-false f i zero x h = refl
member-false f i (suc n) x h = ground (
  arith,
  member-false f (i + 1) n x (λ j ge lt. h j (omega arith) (omega arith)),
  h i (omega arith) (omega arith),
)

-- What `itrunc` leaves.
pub record Truncated (sb : Superblock) (extra : ℕ) (ip : Dinode) (d : Disk) (ip' : Dinode)
    (r : Disk) : Type 0 where
  pub lost : Lost sb extra (owns ip d.cache) d r
  pub no_addrs : (j : ℕ) → j ≤ ndirect → ip'.addrs j ≡ 0
  pub same : ip' ≡ record ip { size = 0; addrs = ip'.addrs }

module _ {extra : ℕ} (sb : Superblock) (one : sb.size ≤ bpb) (ip : Dinode) (d : Disk)
    (o : Owned sb ip d) (room : RoomFor extra (bblock sb 0) d) where
  -- After the first loop.
  direct_loop :
      (e : Disk) × (free_each sb ip.addrs 0 ndirect d ≡ done e)
      × Lost sb extra (member ip.addrs 0 ndirect) d e
  direct_loop =
      free_each-Lost sb one ip.addrs 0 ndirect d (λ j ge lt nz. o.direct j (omega arith) nz)
        (λ j k ge lt lt' nz. o.distinct j k lt (omega arith) nz) room

  still_used :
      (e : Disk) (x : ℕ)
      → Lost sb extra (member ip.addrs 0 ndirect) d e
      → ((j : ℕ) → j < ndirect → ip.addrs j ≢ 0 → ip.addrs j ≢ x)
      → used sb d.cache x ≡ true
      → used sb e.cache x ≡ true
  still_used e x l ne u =
      l.free x ∙ rw (member-false ip.addrs 0 ndirect x (λ j ge lt nz. ne j (omega arith) nz)) u

  indirect_loop :
      (e : Disk)
      → ip.addrs ndirect ≢ 0
      → Lost sb extra (member ip.addrs 0 ndirect) d e
      → (r : Disk) × (free_each sb (entry_of ip d.cache) 0 nindirect e ≡ done r)
        × Lost sb extra (member (entry_of ip d.cache) 0 nindirect) e r
  indirect_loop e nz l =
      free_each-Lost sb one (entry_of ip d.cache) 0 nindirect e
        (λ j ge lt nz'.
          let (inside, u) = o.entries nz j (omega arith) nz' in
          (
            inside,
            still_used e (entry_of ip d.cache j) l
                (λ k lt' nzk. o.entries_apart nz k j (omega arith) (omega arith) nzk) u,
          ))
        (λ j k ge lt lt' nz'. o.entries_distinct nz j k lt (omega arith) nz') l.room

  indirect_block :
      (e r : Disk)
      → ip.addrs ndirect ≢ 0
      → Lost sb extra (member ip.addrs 0 ndirect) d e
      → Lost sb extra (member (entry_of ip d.cache) 0 nindirect) e r
      → (r' : Disk) × (bfree sb (ip.addrs ndirect) r ≡ done r')
        × Lost sb extra (λ x. x == ip.addrs ndirect) r r'
  indirect_block e r nz l l2 =
      let (inside, u, apart) = o.indirect nz in
      let u1 =
        still_used e (ip.addrs ndirect) l (λ k lt' nzk. o.distinct k ndirect lt' (omega arith) nzk)
          u in
      let out =
        member-false (entry_of ip d.cache) 0 nindirect (ip.addrs ndirect) (λ j ge lt nz' e'.
          o.entries_apart nz ndirect j (omega arith) (omega arith) nz (sym e')) in
      bfree-Lost sb one (ip.addrs ndirect) r inside (l2.free (ip.addrs ndirect) ∙ rw out u1) l2.room

  -- The rest of `itrunc`, for the inode as the first loop leaves it.
  rest_with :
      (ip1 : Dinode) (e : Disk)
      → ip1.addrs ndirect ≡ ip.addrs ndirect
      → Lost sb extra (member ip.addrs 0 ndirect) d e
      → (r : Disk) × (ip2 : Dinode) × (free_indirect sb ip1 e ≡ done (ip2, r))
        × Lost sb extra (owns ip d.cache) d r
        × (ip2 ≡ record ip1 { addrs = ip2.addrs })
        × ((j : ℕ) → ip2.addrs j ≡ (if j == ndirect then 0 else ip1.addrs j))
  unfolding free_indirect owns
  rest_with ip1 e same l = elim (Bool-cases (ip.addrs ndirect == 0)) [
    | inl z ↦
        let z1 : ip1.addrs ndirect ≡ 0 = ground arith in
        (
          e,
          ip1,
          rw (same, z) refl,
          record { free = λ x. rw z (l.free x); others = l.others; room = l.room },
          refl,
          λ j. ground arith,
        )
    | inr nz ↦
        let has : ip.addrs ndirect ≢ 0 = λ z. ground arith in
        let (inside, u, apart) = o.indirect has in
        let (r, run, l2) = indirect_loop e has l in
        let (r', run', l3) = indirect_block e r has l l2 in
        let loop =
          free_entries-each sb one (ip.addrs ndirect) (entry_of ip d.cache) 0 nindirect e apart
            (λ j ge lt. entry_inside j (omega arith) has)
            (λ j. ap (λ c. load32 c (4 * j)) (sym (l.others (ip.addrs ndirect) apart))) in
        (
          r',
          with_addr ndirect 0 ip1,
          rw (same, nz) (rw loop (rw run (rw run' refl))),
          record {
            free = λ x. (Lost-trans sb one l (Lost-trans sb one l2 l3)).free x ∙ rw nz refl;
            others = (Lost-trans sb one l (Lost-trans sb one l2 l3)).others;
            room = l3.room;
          },
          refl,
          λ j. set_addr ip1 j,
        )
  ]
    where
      entry_inside :
          (j : ℕ) → j < nindirect → ip.addrs ndirect ≢ 0 → entry_of ip d.cache j < sb.size
      entry_inside j lt has = elim (ℕ_discrete (entry_of ip d.cache j) 0) [
        | yes z ↦ subst (λ x. x < sb.size) (sym z) o.inhabited
        | no nz ↦ (o.entries has j lt nz).0
      ]

      set_addr :
          (ip1 : Dinode) (j : ℕ)
          → update ip1.addrs ndirect 0 j ≡ (if j == ndirect then 0 else ip1.addrs j)
      set_addr ip1 j =
          ground (arith, update_self ip1.addrs ndirect 0, update_ne ip1.addrs ndirect j 0)

  -- `itrunc` of an inode that owns its blocks, with room in the log for the map's block, frees exactly those blocks,
  -- never one that is free, and leaves the inode empty.
  pub truncate-Truncated :
      (ip' : Dinode) × (r : Disk) × (truncate sb ip d ≡ done (ip', r))
      × Truncated sb extra ip d ip' r
  unfolding truncate
  truncate-Truncated =
      let (e, run, l) = direct_loop in
      let ip1 = cleared_from sb one 0 ndirect ip in
      let addrs1 = λ (j : ℕ). cleared_from-addrs sb one 0 ndirect j ip in
      let (r, ip2, run2, l2, same2, addrs2) = rest_with ip1 e (addrs1 ndirect) l in
      (
        record ip2 { size = 0 },
        r,
        rw (free_direct-each sb one 0 ndirect ip d) (rw run (rw run2 refl)),
        record {
          lost = l2;
          no_addrs = λ j le. addrs2 j ∙ ground (arith, addrs1 j);
          same =
              ap {A = Dinode} (λ t. record t { size = 0 }) same2
              ∙ ap {A = Dinode} (λ t. record t { size = 0; addrs = ip2.addrs })
                  (cleared_from-same sb one 0 ndirect ip);
        },
      )
