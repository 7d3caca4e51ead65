-- ===== src/Fs/Fat.antt =====
-- kernel/src/fs/fat32.rs: the table of clusters with its chains, directory entries and inodes. The
-- disk behind it, kernel/src/ata.rs, is port I/O and stands as a parameter where it is used.
pub mod Chain
pub mod Table
pub mod Disk
pub mod Sizes
pub mod Start
pub mod Files
pub mod Offsets
pub mod Names
pub mod Slots
pub mod Entries
pub mod Directory
mod Tests
use flutter_os.Prelude.{
  ℕ, zero, suc, ◌+◌, ◌-◌, ◌*◌, ◌/◌, ◌%◌, ◌^◌, min, Bool, true, false, not, ◌&&◌, ◌||◌, Option, none,
  some, List, [], ◌∷◌, ◌++◌, ltb, leb, ◌==◌, if◌then◌else◌, length, take, drop, get_or, set,
  replicate, bit_and,
}
use flutter_os.Prelude.Dict
use flutter_os.Prelude.Dict.{num_key}
use flutter_os.Kernel.Bytes.{le_bytes, slice, to_bytes}

abbrev pub fat_eoc : ℕ
fat_eoc = 268435455

abbrev pub fat_free : ℕ
fat_free = 0

abbrev pub attr_dir : ℕ
attr_dir = 16

abbrev pub attr_lfn : ℕ
attr_lfn = 15

-- A directory entry; the name is its 11 bytes.
pub record RawDirEntry : Type 0 where
  pub name : List ℕ
  pub attr : ℕ
  pub nt_res : ℕ
  pub crt_time_tenth : ℕ
  pub crt_time : ℕ
  pub crt_date : ℕ
  pub lst_acc_date : ℕ
  pub fst_clus_hi : ℕ
  pub wrt_time : ℕ
  pub wrt_date : ℕ
  pub fst_clus_lo : ℕ
  pub file_size : ℕ

unfoldable pub is_free : RawDirEntry → Bool
is_free e = (get_or e.name 0 0 == 0) || (get_or e.name 0 0 == 229)

unfoldable pub is_lfn : RawDirEntry → Bool
is_lfn e = bit_and e.attr attr_lfn == attr_lfn

unfoldable pub is_dir : RawDirEntry → Bool
is_dir e = not (bit_and e.attr attr_dir == 0)

-- The two halves have 16 bits each, so that `|` is their sum.
unfoldable pub first_cluster : RawDirEntry → ℕ
first_cluster e = e.fst_clus_hi * 2 ^ 16 + e.fst_clus_lo

unfoldable pub pack_entry : RawDirEntry → List ℕ
pack_entry e =
    e.name
    ++ ((e.attr ∷ e.nt_res ∷ e.crt_time_tenth ∷ [])
        ++ to_bytes 2 e.crt_time
        ++ to_bytes 2 e.crt_date
        ++ to_bytes 2 e.lst_acc_date
        ++ to_bytes 2 e.fst_clus_hi
        ++ to_bytes 2 e.wrt_time
        ++ to_bytes 2 e.wrt_date
        ++ to_bytes 2 e.fst_clus_lo
        ++ to_bytes 4 e.file_size)

-- The body of the loop of `read_dir_raw`: the entry at an offset.
unfoldable pub entry_at : List ℕ → ℕ → RawDirEntry
entry_at buf off = record {
  name = slice buf off 11;
  attr = get_or buf (off + 11) 0;
  nt_res = get_or buf (off + 12) 0;
  crt_time_tenth = get_or buf (off + 13) 0;
  crt_time = le_bytes (slice buf (off + 14) 2);
  crt_date = le_bytes (slice buf (off + 16) 2);
  lst_acc_date = le_bytes (slice buf (off + 18) 2);
  fst_clus_hi = le_bytes (slice buf (off + 20) 2);
  wrt_time = le_bytes (slice buf (off + 22) 2);
  wrt_date = le_bytes (slice buf (off + 24) 2);
  fst_clus_lo = le_bytes (slice buf (off + 26) 2);
  file_size = le_bytes (slice buf (off + 28) 4);
}

-- `first_cluster` and `is_dir` are the fields start_cluster and is_directory.
pub record FatInode : Type 0 where
  pub start_cluster : ℕ
  pub size : ℕ
  pub is_directory : Bool

pub record Fat32 : Type 0 where
  pub part_start_lba : ℕ
  pub bytes_per_sector : ℕ
  pub sectors_per_cluster : ℕ
  pub rsvd_sec_cnt : ℕ
  pub num_fats : ℕ
  pub fat_sz32 : ℕ
  pub root_cluster : ℕ
  pub data_start_lba : ℕ
  pub fat_cache : List ℕ
  pub inodes : List (ℕ × FatInode)
  pub next_inode : ℕ

-- 64-bit arithmetic, which wraps below cluster 2.
unfoldable pub cluster_to_lba : Fat32 → ℕ → ℕ
cluster_to_lba f cluster =
    (f.data_start_lba + (cluster + 2 ^ 64 - 2) % 2 ^ 64 * f.sectors_per_cluster) % 2 ^ 64

-- The bytes of the table that `flush_fat` writes, and the table that `load_fat` makes of bytes.
abbrev pub words : List ℕ → List ℕ
words [] = []
words (v ∷ vs) = to_bytes 4 v ++ words vs

unfoldable pub table_bytes : Fat32 → List ℕ
table_bytes f =
    let bytes = words f.fat_cache in
    let size = f.fat_sz32 * f.bytes_per_sector in
    take size bytes ++ replicate (size - length bytes) 0

unfoldable pub parse_table : ℕ → List ℕ → List ℕ
parse_table zero bytes = []
parse_table (suc n) bytes = le_bytes (take 4 bytes) ∷ parse_table n (drop 4 bytes)

-- The loop of `cluster_chain`, of so many rounds.
unfoldable pub chain_from : ℕ → List ℕ → ℕ → List ℕ
chain_from zero fat c = []
chain_from (suc n) fat c = elim (ltb c 2 || leb (length fat) c) [
  | true ↦ []
  | false ↦ elim (leb (fat_eoc - 1) (get_or fat c 0) || (get_or fat c 0 == 0)) [
    | true ↦ c ∷ []
    | false ↦ c ∷ chain_from n fat (get_or fat c 0)
  ]
]

unfoldable pub cluster_chain : Fat32 → ℕ → List ℕ
cluster_chain f first = chain_from 1000000 f.fat_cache first

-- `for i in i0..i0 + n`: the first cluster that is free.
unfoldable pub free_from : ℕ → ℕ → List ℕ → Option ℕ
free_from zero i fat = none
free_from (suc n) i fat =
    let rest = free_from n (i + 1) fat in if get_or fat i 0 == fat_free then some i else rest

unfoldable pub alloc_cluster : Fat32 → Option ℕ × Fat32
alloc_cluster f = elim (free_from (length f.fat_cache - 2) 2 f.fat_cache) [
  | none ↦ (none, f)
  | some i ↦ (some (i % 2 ^ 32), record f { fat_cache = set f.fat_cache i fat_eoc })
]

unfoldable pub clear_all : List ℕ → List ℕ → List ℕ
clear_all [] fat = fat
clear_all (c ∷ cs) fat = clear_all cs (set fat c fat_free)

unfoldable pub free_chain : Fat32 → ℕ → Fat32
free_chain f first = record f { fat_cache = clear_all (cluster_chain f first) f.fat_cache }

abbrev pub same_kind : Bool → Bool → Bool
same_kind true b = b
same_kind false b = not b

-- The inode that is in use for a cluster, in the order of the inode numbers.
unfoldable pub find_inode : ℕ → Bool → List (ℕ × FatInode) → Option ℕ
find_inode cluster dir [] = none
find_inode cluster dir ((id, n) ∷ rest) =
    let later = find_inode cluster dir rest in
    if (n.start_cluster == cluster) && same_kind n.is_directory dir then some id else later

unfoldable pub intern_inode : Fat32 → ℕ → ℕ → Bool → ℕ × Fat32
intern_inode f cluster size dir = elim (find_inode cluster dir f.inodes) [
  | some id ↦ (id, f)
  | none ↦ (
    f.next_inode,
    record f {
      inodes =
          Dict.insert f.next_inode
            (record { start_cluster = cluster; size = size; is_directory = dir }) f.inodes;
      next_inode = (f.next_inode + 1) % 2 ^ 64;
    },
  )
]
