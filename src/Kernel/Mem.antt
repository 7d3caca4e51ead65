-- ===== src/Kernel/Mem.antt =====
-- kernel/src/mem.rs: the byte-wise memory functions that the linker expects. Memory is a function
-- from addresses to bytes; an address range does not wrap.
pub mod Laws
pub mod Compare
use flutter_os.Prelude.{ℕ, zero, suc, ◌+◌, ◌%◌, ltb, ◌==◌, if◌then◌else◌}
use flutter_os.Prelude.Int.{ℤ, pos, sub_ℕ}

abbrev pub Memory : Type 0
Memory = ℕ → ℕ

-- `*a = v`
abbrev pub put : Memory → ℕ → ℕ → Memory
put m a v b = if a == b then v else m b

-- `for i in i..i + n`
unfoldable pub copy_up : ℕ → ℕ → ℕ → ℕ → Memory → Memory
copy_up zero i dest src m = m
copy_up (suc n) i dest src m = copy_up n (i + 1) dest src (put m (dest + i) (m (src + i)))

-- `for i in (0..n).rev()`
unfoldable pub copy_down : ℕ → ℕ → ℕ → Memory → Memory
copy_down zero dest src m = m
copy_down (suc n) dest src m = copy_down n dest src (put m (dest + n) (m (src + n)))

unfoldable pub memcpy : ℕ → ℕ → ℕ → Memory → Memory
memcpy dest src n m = copy_up n 0 dest src m

unfoldable pub memmove : ℕ → ℕ → ℕ → Memory → Memory
memmove dest src n m = if ltb dest src then copy_up n 0 dest src m else copy_down n dest src m

unfoldable pub fill : ℕ → ℕ → ℕ → ℕ → Memory → Memory
fill zero i s byte m = m
fill (suc n) i s byte m = fill n (i + 1) s byte (put m (s + i) byte)

unfoldable pub memset : ℕ → ℕ → ℕ → Memory → Memory
memset s c n m = fill n 0 s (c % 256) m

-- The loop of `memcmp` from index i on, of so many rounds.
unfoldable pub compare_from : ℕ → ℕ → ℕ → ℕ → Memory → ℤ
compare_from zero i s1 s2 m = pos 0
compare_from (suc n) i s1 s2 m =
    let rest = compare_from n (i + 1) s1 s2 m in
    if m (s1 + i) == m (s2 + i) then rest else sub_ℕ (m (s1 + i)) (m (s2 + i))

unfoldable pub memcmp : ℕ → ℕ → ℕ → Memory → ℤ
memcmp s1 s2 n m = compare_from n 0 s1 s2 m

-- The loop of `strlen` with fuel, and the length when the fuel is used up.
unfoldable pub strlen : ℕ → ℕ → ℕ → Memory → ℕ
strlen zero len s m = len
strlen (suc fuel) len s m =
    let rest = strlen fuel (len + 1) s m in if m (s + len) == 0 then len else rest
