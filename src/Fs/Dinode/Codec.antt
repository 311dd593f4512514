-- ===== src/Fs/Dinode/Codec.antt =====
-- The stores of `iupdate` and the loads of `ilock` of kernel/fs.c on the bytes of an inode block.
use osn.Base.{
  ℕ, zero, suc, ◌+◌, ◌*◌, ◌/◌, ◌^◌, ◌≤◌, ◌<◌, ◌≡◌, ◌⊎◌, refl, ap₂, ◌∙◌, update, arith, ℕ_discrete,
}
use osn.Fs.{Block}
use osn.Fs.Dinode.{Dinode, load16, store16, load32, store32, store_words, encode, decode, ndirect}

-- The `w` bytes from `p` and the `v` bytes from `o` do not meet.
abbrev pub Apart : ℕ → ℕ → ℕ → ℕ → Type 0
Apart p w o v = (p + w ≤ o) ⊎ (o + v ≤ p)

pub load16-store16 : (bytes : Block) (o v : ℕ) → v < 65536 → load16 (store16 bytes o v) o ≡ v
unfolding load16 store16 update
load16-store16 bytes o v h = ground arith

pub load16-store16-Apart :
    (bytes : Block) (o p v : ℕ) → Apart p 2 o 2 → load16 (store16 bytes o v) p ≡ load16 bytes p
unfolding load16 store16 update
load16-store16-Apart bytes o p v h = ground arith

pub load32-store16-Apart :
    (bytes : Block) (o p v : ℕ) → Apart p 4 o 2 → load32 (store16 bytes o v) p ≡ load32 bytes p
unfolding load32
load32-store16-Apart bytes o p v h =
    ap₂ (λ a b. a + 65536 * b) (load16-store16-Apart bytes o p v (ground arith))
      (load16-store16-Apart bytes o (p + 2) v (ground arith))

pub load32-store32 : (bytes : Block) (o v : ℕ) → v < 2 ^ 32 → load32 (store32 bytes o v) o ≡ v
unfolding load32 store32 load16 store16 update
load32-store32 bytes o v h = ground arith

pub load16-store32-Apart :
    (bytes : Block) (o p v : ℕ) → Apart p 2 o 4 → load16 (store32 bytes o v) p ≡ load16 bytes p
unfolding store32
load16-store32-Apart bytes o p v h =
    load16-store16-Apart (store16 bytes o v) (o + 2) p (v / 65536) (ground arith)
    ∙ load16-store16-Apart bytes o p v (ground arith)

pub load32-store32-Apart :
    (bytes : Block) (o p v : ℕ) → Apart p 4 o 4 → load32 (store32 bytes o v) p ≡ load32 bytes p
unfolding load32
load32-store32-Apart bytes o p v h =
    ap₂ (λ a b. a + 65536 * b) (load16-store32-Apart bytes o p v (ground arith))
      (load16-store32-Apart bytes o (p + 2) v (ground arith))

load16-store_words-Apart :
    (bytes : Block) (o p n : ℕ) (addrs : ℕ → ℕ)
    → Apart p 2 o (4 * n)
    → load16 (store_words bytes o n addrs) p ≡ load16 bytes p
unfolding store_words
load16-store_words-Apart bytes o p zero addrs h = refl
load16-store_words-Apart bytes o p (suc n) addrs h =
    load16-store32-Apart (store_words bytes o n addrs) (o + 4 * n) p (addrs n) (ground arith)
    ∙ load16-store_words-Apart bytes o p n addrs (ground arith)

load32-store_words-Apart :
    (bytes : Block) (o p n : ℕ) (addrs : ℕ → ℕ)
    → Apart p 4 o (4 * n)
    → load32 (store_words bytes o n addrs) p ≡ load32 bytes p
unfolding store_words
load32-store_words-Apart bytes o p zero addrs h = refl
load32-store_words-Apart bytes o p (suc n) addrs h =
    load32-store32-Apart (store_words bytes o n addrs) (o + 4 * n) p (addrs n) (ground arith)
    ∙ load32-store_words-Apart bytes o p n addrs (ground arith)

load32-store_words :
    (bytes : Block) (o n i : ℕ) (addrs : ℕ → ℕ)
    → ((i : ℕ) → i < n → addrs i < 2 ^ 32)
    → i < n
    → load32 (store_words bytes o n addrs) (o + 4 * i) ≡ addrs i
unfolding store_words
load32-store_words bytes o zero i addrs fit lt = absurd (omega arith)
load32-store_words bytes o (suc n) i addrs fit lt = elim (ℕ_discrete i n) [
  | yes e ↦
      rw e
        (load32-store32 (store_words bytes o n addrs) (o + 4 * n) (addrs n) (fit n (omega arith)))
  | no ne ↦
      load32-store32-Apart (store_words bytes o n addrs) (o + 4 * n) (o + 4 * i) (addrs n)
        (ground arith)
      ∙ load32-store_words bytes o n i addrs (λ j lt'. fit j (omega arith)) (omega arith)
]

-- The fields fit their C types.
pub record Fits (d : Dinode) : Type 0 where
  pub type_fits : d.type < 2 ^ 16
  pub major_fits : d.major < 2 ^ 16
  pub minor_fits : d.minor < 2 ^ 16
  pub nlink_fits : d.nlink < 2 ^ 16
  pub size_fits : d.size < 2 ^ 32
  pub addrs_fit : (i : ℕ) → i < ndirect + 1 → d.addrs i < 2 ^ 32

-- The same fields, with the same addresses within the array.
pub record SameDinode (d e : Dinode) : Type 0 where
  pub type : d.type ≡ e.type
  pub major : d.major ≡ e.major
  pub minor : d.minor ≡ e.minor
  pub nlink : d.nlink ≡ e.nlink
  pub size : d.size ≡ e.size
  pub addrs : (i : ℕ) → i < ndirect + 1 → d.addrs i ≡ e.addrs i

module _ (bytes : Block) (o : ℕ) (d : Dinode) where
  shorts : Block
  shorts =
      store16 (store16 (store16 (store16 bytes o d.type) (o + 2) d.major) (o + 4) d.minor) (o + 6)
        d.nlink

  load16-encode-shorts : (p : ℕ) → p + 2 ≤ o + 8 → load16 (encode bytes o d) p ≡ load16 shorts p
  unfolding encode shorts
  load16-encode-shorts p h =
      load16-store_words-Apart (store32 shorts (o + 8) d.size) (o + 12) p (ndirect + 1) d.addrs
        (ground arith)
      ∙ load16-store32-Apart shorts (o + 8) p d.size (ground arith)

  load16-shorts-Apart : (p : ℕ) → Apart p 2 o 8 → load16 shorts p ≡ load16 bytes p
  unfolding shorts
  load16-shorts-Apart p h =
      let s1 = store16 bytes o d.type in
      let s2 = store16 s1 (o + 2) d.major in
      let s3 = store16 s2 (o + 4) d.minor in
      load16-store16-Apart s3 (o + 6) p d.nlink (ground arith)
      ∙ (load16-store16-Apart s2 (o + 4) p d.minor (ground arith)
          ∙ (load16-store16-Apart s1 (o + 2) p d.major (ground arith)
              ∙ load16-store16-Apart bytes o p d.type (ground arith)))

  load16-encode-Apart : (p : ℕ) → Apart p 2 o 64 → load16 (encode bytes o d) p ≡ load16 bytes p
  unfolding encode shorts
  load16-encode-Apart p h =
      load16-store_words-Apart (store32 shorts (o + 8) d.size) (o + 12) p (ndirect + 1) d.addrs
        (ground arith)
      ∙ (load16-store32-Apart shorts (o + 8) p d.size (ground arith)
          ∙ load16-shorts-Apart p (ground arith))

  load32-encode-Apart : (p : ℕ) → Apart p 4 o 64 → load32 (encode bytes o d) p ≡ load32 bytes p
  unfolding load32
  load32-encode-Apart p h =
      ap₂ (λ a b. a + 65536 * b) (load16-encode-Apart p (ground arith))
        (load16-encode-Apart (p + 2) (ground arith))

  -- What `iupdate` stores is what `ilock` loads.
  pub decode-encode : Fits d → SameDinode (decode (encode bytes o d) o) d
  unfolding decode encode shorts
  decode-encode fits =
      let s1 = store16 bytes o d.type in
      let s2 = store16 s1 (o + 2) d.major in
      let s3 = store16 s2 (o + 4) d.minor in
      record {
        type =
            load16-encode-shorts o (omega arith)
            ∙ (load16-store16-Apart s3 (o + 6) o d.nlink (ground arith)
                ∙ (load16-store16-Apart s2 (o + 4) o d.minor (ground arith)
                    ∙ (load16-store16-Apart s1 (o + 2) o d.major (ground arith)
                        ∙ load16-store16 bytes o d.type fits.type_fits)));
        major =
            load16-encode-shorts (o + 2) (omega arith)
            ∙ (load16-store16-Apart s3 (o + 6) (o + 2) d.nlink (ground arith)
                ∙ (load16-store16-Apart s2 (o + 4) (o + 2) d.minor (ground arith)
                    ∙ load16-store16 s1 (o + 2) d.major fits.major_fits));
        minor =
            load16-encode-shorts (o + 4) (omega arith)
            ∙ (load16-store16-Apart s3 (o + 6) (o + 4) d.nlink (ground arith)
                ∙ load16-store16 s2 (o + 4) d.minor fits.minor_fits);
        nlink =
            load16-encode-shorts (o + 6) (omega arith)
            ∙ load16-store16 s3 (o + 6) d.nlink fits.nlink_fits;
        size = sized ∙ load32-store32 shorts (o + 8) d.size fits.size_fits;
        addrs = λ i lt.
            load32-store_words (store32 shorts (o + 8) d.size) (o + 12) (ndirect + 1) i d.addrs
              fits.addrs_fit lt;
      }
    where
      sized : load32 (encode bytes o d) (o + 8) ≡ load32 (store32 shorts (o + 8) d.size) (o + 8)
      sized =
          load32-store_words-Apart (store32 shorts (o + 8) d.size) (o + 12) (o + 8) (ndirect + 1)
            d.addrs (ground arith)

  -- And it leaves the other inodes of the block as they are.
  pub decode-encode_apart :
      (p : ℕ) → Apart p 64 o 64 → SameDinode (decode (encode bytes o d) p) (decode bytes p)
  unfolding decode
  decode-encode_apart p h = record {
    type = load16-encode-Apart p (ground arith);
    major = load16-encode-Apart (p + 2) (ground arith);
    minor = load16-encode-Apart (p + 4) (ground arith);
    nlink = load16-encode-Apart (p + 6) (ground arith);
    size = load32-encode-Apart (p + 8) (ground arith);
    addrs = λ i lt. load32-encode-Apart (p + 12 + 4 * i) (ground arith);
  }
