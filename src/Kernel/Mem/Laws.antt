-- ===== src/Kernel/Mem/Laws.antt =====
-- What the copying functions of kernel/src/mem.rs leave in memory.
use flutter_os.Prelude.{
  ℕ, zero, suc, ◌+◌, ◌-◌, ◌%◌, ◌≤◌, ◌≡◌, ◌⊎◌, ◌&&◌, ltb, leb, if◌then◌else◌, arith,
}
use flutter_os.Kernel.Mem.{Memory, put, copy_up, copy_down, memcpy, memmove, fill, memset}

-- Copying upwards is right when the target does not lie behind the start of the source.
copy_up_lem :
    (n i dest src : ℕ) (m : Memory) (a : ℕ)
    → (dest ≤ src) ⊎ (src + i + n ≤ dest + i)
    → copy_up n i dest src m a
      ≡ (if leb (dest + i) a && ltb a (dest + i + n) then m (src + (a - dest)) else m a)
unfolding copy_up
copy_up_lem zero i dest src m a h = ground arith
copy_up_lem (suc n) i dest src m a h =
    ground (arith, copy_up_lem n (i + 1) dest src (put m (dest + i) (m (src + i))) a)

copy_down_lem :
    (n dest src : ℕ) (m : Memory) (a : ℕ)
    → src ≤ dest
    → copy_down n dest src m a
      ≡ (if leb dest a && ltb a (dest + n) then m (src + (a - dest)) else m a)
unfolding copy_down
copy_down_lem zero dest src m a h = ground arith
copy_down_lem (suc n) dest src m a h =
    ground (arith, copy_down_lem n dest src (put m (dest + n) (m (src + n))) a)

-- `memmove` moves every byte of the source as it was before the call, also where the two ranges
-- overlap in either direction, and changes no byte outside the target.
pub memmove_lem :
    (dest src n : ℕ) (m : Memory) (a : ℕ)
    → memmove dest src n m a
      ≡ (if leb dest a && ltb a (dest + n) then m (src + (a - dest)) else m a)
unfolding memmove
memmove_lem dest src n m a =
    ground (arith, copy_up_lem n 0 dest src m a, copy_down_lem n dest src m a)

-- On ranges that do not overlap `memcpy` leaves what `memmove` leaves.
pub memcpy-eq-memmove :
    (dest src n : ℕ) (m : Memory) (a : ℕ)
    → (dest + n ≤ src) ⊎ (src + n ≤ dest)
    → memcpy dest src n m a ≡ memmove dest src n m a
unfolding memcpy
memcpy-eq-memmove dest src n m a h =
    ground (arith, memmove_lem dest src n m a, copy_up_lem n 0 dest src m a)

fill_lem :
    (n i s byte : ℕ) (m : Memory) (a : ℕ)
    → fill n i s byte m a ≡ (if leb (s + i) a && ltb a (s + i + n) then byte else m a)
unfolding fill
fill_lem zero i s byte m a = ground arith
fill_lem (suc n) i s byte m a = ground (arith, fill_lem n (i + 1) s byte (put m (s + i) byte) a)

-- `memset` sets the n bytes from s on to the low byte of c, and no other.
pub memset_lem :
    (s c n : ℕ) (m : Memory) (a : ℕ)
    → memset s c n m a ≡ (if leb s a && ltb a (s + n) then c % 256 else m a)
unfolding memset
memset_lem s c n m a = ground (arith, fill_lem n 0 s (c % 256) m a)
