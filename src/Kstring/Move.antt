-- ===== src/Kstring/Move.antt =====
-- What `memset` and `memmove` of kernel/string.c leave in memory.
use osn.Base.{
  ℕ, zero, suc, ◌+◌, ◌-◌, ◌%◌, ◌≤◌, ◌≡◌, refl, ◌⊎◌, Bool, ◌&&◌, ltb, leb, if◌then◌else◌, update,
  arith,
}
use osn.Kstring.{Memory, memset_from, memset, copy_up, copy_down, memmove}

-- The address lies in the `n` bytes from `lo`.
abbrev within : ℕ → ℕ → ℕ → Bool
within lo n a = leb lo a && ltb a (lo + n)

memset_from_lem :
    (n : ℕ) (m : Memory) (dst c i a : ℕ)
    → memset_from m dst c i n a ≡ (if within (dst + i) n a then c % 256 else m a)
unfolding memset_from update
memset_from_lem zero m dst c i a = ground arith
memset_from_lem (suc n) m dst c i a =
    ground (arith, memset_from_lem n (update m (dst + i) (c % 256)) dst c (i + 1) a)

-- `memset` sets exactly the bytes from `dst` up to `dst + n` to the low byte of `c`.
pub memset_lem :
    (m : Memory) (dst c n a : ℕ)
    → memset m dst c n a ≡ (if leb dst a && ltb a (dst + n) then c % 256 else m a)
unfolding memset
memset_lem m dst c n a = ground (arith, memset_from_lem n m dst c 0 a)

-- The bytes of the source as they were, wherever the destination lies.
abbrev moved : Memory → ℕ → ℕ → ℕ → ℕ → ℕ
moved m dst src n a = if leb dst a && ltb a (dst + n) then m (src + (a - dst)) else m a

copy_up_lem :
    (n : ℕ) (m : Memory) (dst src a : ℕ)
    → (dst ≤ src) ⊎ (src + n ≤ dst)
    → copy_up m dst src n a ≡ moved m dst src n a
unfolding copy_up update
copy_up_lem zero m dst src a h = ground arith
copy_up_lem (suc n) m dst src a h =
    ground (arith, copy_up_lem n (update m dst (m src)) (dst + 1) (src + 1) a)

copy_down_lem :
    (n : ℕ) (m : Memory) (d s dst src a : ℕ)
    → d ≡ dst + n
    → s ≡ src + n
    → src ≤ dst
    → copy_down m d s n a ≡ moved m dst src n a
unfolding copy_down update
copy_down_lem zero m d s dst src a p q h = ground arith
copy_down_lem (suc n) m d s dst src a p q h =
    ground (arith, copy_down_lem n (update m (d - 1) (m (s - 1))) (d - 1) (s - 1) dst src a)

-- `memmove` moves the `n` source bytes as they were before the call, whether or not the two ranges
-- overlap and in either direction, and changes no other byte.
pub memmove_lem :
    (m : Memory) (dst src n a : ℕ)
    → memmove m dst src n a ≡ (if leb dst a && ltb a (dst + n) then m (src + (a - dst)) else m a)
unfolding memmove
memmove_lem m dst src n a =
    ground
      (arith, copy_up_lem n m dst src a, copy_down_lem n m (dst + n) (src + n) dst src a refl refl)
