-- ===== src/Kernel/Bytes.antt =====
-- Little-endian numbers and byte slices, which kernel/src/aero_format.rs and exec.rs read.
use flutter_os.Prelude.{ℕ, zero, suc, ◌%◌, ◌/◌, ◌+◌, ◌*◌, List, [], ◌∷◌, take, drop}

-- `from_le_bytes` of the bytes in order.
abbrev pub le_bytes : List ℕ → ℕ
le_bytes [] = 0
le_bytes (b ∷ bs) = b + 256 * le_bytes bs

-- The low bytes of a number, the lowest one first: `to_le_bytes`.
abbrev pub to_bytes : ℕ → ℕ → List ℕ
to_bytes zero n = []
to_bytes (suc k) n = n % 256 ∷ to_bytes k (n / 256)

-- `buf[start..start + n]`, for a slice within the buffer.
abbrev pub slice : List ℕ → ℕ → ℕ → List ℕ
slice buf start n = take n (drop start buf)
