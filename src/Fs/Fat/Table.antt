-- ===== src/Fs/Fat/Table.antt =====
-- The cluster table of kernel/src/fs/fat32.rs in memory and on disk.
use flutter_os.Prelude.{
  ℕ, ◌-◌, ◌*◌, ◌^◌, ◌<◌, ◌≡◌, refl, List, [], ◌∷◌, ◌++◌, length, take, replicate, arith, ap, ap₂,
}
use flutter_os.Kernel.Bytes.{le_bytes, to_bytes}
use flutter_os.Fs.Fat.{Fat32, words, table_bytes, parse_table}

-- The entries are 32-bit words.
abbrev pub IsWords : List ℕ → Type 0
IsWords [] = Unit
IsWords (v ∷ vs) = (v < 2 ^ 32) × IsWords vs

word_lem : (v : ℕ) → v < 2 ^ 32 → le_bytes (to_bytes 4 v) ≡ v
word_lem v h = omega (arith, h)

length-words : (vs : List ℕ) → length (words vs) ≡ 4 * length vs
length-words [] = refl
length-words (v ∷ vs) = omega (arith, length-words vs)

parse_table-words :
    (vs tail : List ℕ) → IsWords vs → parse_table (length vs) (words vs ++ tail) ≡ vs
unfolding parse_table
parse_table-words [] tail h = refl
parse_table-words (v ∷ vs) tail (small, h) =
    ap₂ (λ w ws. w ∷ ws) (word_lem v small) (parse_table-words vs tail h)

take_whole : (bytes : List ℕ) → take (length bytes) bytes ≡ bytes
take_whole [] = refl
take_whole (x ∷ bytes) = ap (λ k. x ∷ k) (take_whole bytes)

-- Loading the bytes that flushing wrote gives the table back, when it fills its sectors.
pub parse_table-table_bytes :
    (f : Fat32)
    → IsWords f.fat_cache
    → 4 * length f.fat_cache ≡ f.fat_sz32 * f.bytes_per_sector
    → parse_table (length f.fat_cache) (table_bytes f) ≡ f.fat_cache
unfolding table_bytes
parse_table-table_bytes f h full =
    let vs = f.fat_cache in
    let size = f.fat_sz32 * f.bytes_per_sector in
    let fits : size ≡ length (words vs) = omega (arith, full, length-words vs) in
    rw (fits, take_whole (words vs))
      (parse_table-words vs (replicate (length (words vs) - length (words vs)) 0) h)
