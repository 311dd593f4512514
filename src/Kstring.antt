-- ===== src/Kstring.antt =====
-- kernel/string.c: the byte routines over a flat memory. Addresses do not wrap, and a byte is a
-- number below 256; what a routine returns besides the memory is its C result.
pub mod Move
pub mod Compare
pub mod Copy
use osn.Base.{
  ℕ, zero, suc, ◌+◌, ◌-◌, ◌%◌, Option, none, some, Bool, true, false, ◌&&◌, ltb, ◌==◌,
  if◌then◌else◌, update, not,
}
use osn.Base.Int.{ℤ, pos, negsuc, sub_ℕ}

abbrev pub Memory : Type 0
Memory = ℕ → ℕ

-- `cdst[i] = c` for each i below n; `c` is the bit pattern of the `int`.
memset_from : Memory → ℕ → ℕ → ℕ → ℕ → Memory
memset_from m dst c i zero = m
memset_from m dst c i (suc n) = memset_from (update m (dst + i) (c % 256)) dst c (i + 1) n

pub memset : Memory → ℕ → ℕ → ℕ → Memory
memset m dst c n = memset_from m dst c 0 n

pub memcmp : Memory → ℕ → ℕ → ℕ → ℤ
memcmp m s1 s2 zero = pos 0
memcmp m s1 s2 (suc n) = if m s1 == m s2 then memcmp m (s1 + 1) (s2 + 1) n else sub_ℕ (m s1) (m s2)

-- `while(n-- > 0) *d++ = *s++`
copy_up : Memory → ℕ → ℕ → ℕ → Memory
copy_up m d s zero = m
copy_up m d s (suc n) = copy_up (update m d (m s)) (d + 1) (s + 1) n

-- `while(n-- > 0) *--d = *--s`
copy_down : Memory → ℕ → ℕ → ℕ → Memory
copy_down m d s zero = m
copy_down m d s (suc n) = copy_down (update m (d - 1) (m (s - 1))) (d - 1) (s - 1) n

pub memmove : Memory → ℕ → ℕ → ℕ → Memory
memmove m dst src n =
    if n == 0
    then m
    else if ltb src dst && ltb dst (src + n)
    then copy_down m (dst + n) (src + n) n
    else copy_up m dst src n

pub memcpy : Memory → ℕ → ℕ → ℕ → Memory
memcpy m dst src n = memmove m dst src n

pub strncmp : Memory → ℕ → ℕ → ℕ → ℤ
strncmp m p q zero = pos 0
strncmp m p q (suc n) =
    if not (m p == 0) && m p == m q then strncmp m (p + 1) (q + 1) n else sub_ℕ (m p) (m q)

-- `while(n-- > 0) *s++ = 0`
pad : Memory → ℕ → ℕ → Memory
pad m s zero = m
pad m s (suc n) = pad (update m s 0) (s + 1) n

-- The count of `strncpy`, at most 0 when negative, is the number of bytes to fill.
pub strncpy : Memory → ℕ → ℕ → ℕ → Memory
strncpy m s t zero = m
strncpy m s t (suc n) =
    let m' = update m s (m t) in if m t == 0 then pad m' (s + 1) n else strncpy m' (s + 1) (t + 1) n

-- The loop of `safestrcpy` at `k` bytes left, and the store that ends it.
safe_copy : Memory → ℕ → ℕ → ℕ → Memory
safe_copy m s t zero = update m s 0
safe_copy m s t (suc k) =
    let m' = update m s (m t) in
    if m t == 0 then update m' (s + 1) 0 else safe_copy m' (s + 1) (t + 1) k

pub safestrcpy : Memory → ℕ → ℕ → ℤ → Memory
safestrcpy m s t (negsuc n) = m
safestrcpy m s t (pos zero) = m
safestrcpy m s t (pos (suc n)) = safe_copy m s t n

-- `for(n = 0; s[n]; n++)`, on fuel; `none` means that the fuel ran out.
strlen_from : ℕ → Memory → ℕ → ℕ → Option ℕ
strlen_from zero m s n = none
strlen_from (suc f) m s n =
    let rest = strlen_from f m s (n + 1) in if m (s + n) == 0 then some n else rest

pub strlen : ℕ → Memory → ℕ → Option ℕ
strlen f m s = strlen_from f m s 0
