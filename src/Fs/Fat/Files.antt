-- ===== src/Fs/Fat/Files.antt =====
-- Writing and cutting files: kernel/src/fs/fat32.rs.
pub mod Laws
pub mod Truncate
use flutter_os.Prelude.{
  ℕ, zero, suc, ◌+◌, ◌-◌, ◌*◌, ◌/◌, ◌%◌, ◌^◌, Bool, true, false, ◌||◌, ◌&&◌, not, Option, none,
  some, List, [], ◌∷◌, ◌++◌, ltb, leb, ◌==◌, if◌then◌else◌, length, take, drop, get_or, set, min,
}
use flutter_os.Prelude.Dict
use flutter_os.Prelude.Dict.{num_key}
use flutter_os.Fs.Result.{
  inode_not_found, not_regular, out_of_clusters, flush_failed, Result, ok, err, panicked, FileType,
  regular, directory,
}
use flutter_os.Fs.Fat.{Fat32, FatInode, fat_eoc, fat_free, cluster_chain, clear_all}
use flutter_os.Fs.Fat.Disk.{
  Disk, bytes_per_cluster, set_first, set_size, grow_chain, write_rounds, flush_fat,
}
use flutter_os.Fs.Fat.Sizes.{update_dir_entry_size}

-- How many clusters hold so many bytes.
abbrev pub needed : ℕ → ℕ → ℕ
needed end size = if end == 0 then 0 else (end + size - 1) % 2 ^ 64 / size

unfoldable pub size : Fat32 → ℕ → ℕ
size f id = elim (Dict.lookup id f.inodes) [ none ↦ 0 | some n ↦ n.size ]

-- How the update of the entry ends the call.
abbrev pub persisted : {D A B : Type 0} → A → Fat32 → Bool → D → Result B × D → Result A × D × Fat32
persisted a f false d r = (err flush_failed, d, f)
persisted a f true d (err e, d') = (err e, d', f)
persisted a f true d (panicked, d') = (panicked, d', f)
persisted a f true d (ok b, d') = (ok a, d', f)

-- An inode that is not there counts as a file.
unfoldable pub file_type : Fat32 → ℕ → FileType
file_type f id = elim (Dict.lookup id f.inodes) [
  | none ↦ regular
  | some n ↦ if n.is_directory then directory else regular
]

module _ {D : Type 0} (k : Disk D) (depth : ℕ) where
  -- The end of `write` and of `truncate`.
  abbrev pub persist : {A : Type 0} → A → ℕ → D → Fat32 → Result A × D × Fat32
  persist a id d f =
      let (done, d') = flush_fat k d f in
      persisted a f done d' (update_dir_entry_size k depth d' f id)

  -- The write behind the growth of the chain.
  unfoldable pub write_in : D → Fat32 → ℕ → FatInode → List ℕ → ℕ → List ℕ → Result ℕ × D × Fat32
  write_in d f id n chain offset buf =
      let end = (offset + length buf) % 2 ^ 64 in
      let (r, d') = write_rounds k (end - offset) d f chain offset offset end buf in
      elim r [
        | err e ↦ (err e, d', f)
        | panicked ↦ (panicked, d', f)
        | ok written ↦
            persist written id d' (if ltb n.size end then set_size id (end % 2 ^ 32) f else f)
      ]

  -- With clusters of no bytes the division panics. The first cluster, which the code tests for 0 behind
  -- its loop, is 0 only where the chain is empty.
  unfoldable pub write : D → Fat32 → ℕ → ℕ → List ℕ → Result ℕ × D × Fat32
  write d f id offset buf = elim (Dict.lookup id f.inodes) [
    | none ↦ (err inode_not_found, d, f)
    | some n ↦
        let end = (offset + length buf) % 2 ^ 64 in
        let size = bytes_per_cluster f in
        let chain = cluster_chain f n.start_cluster in
        let (enough, chain', f') = grow_chain (needed end size - length chain) id f chain in
        if n.is_directory
        then (err not_regular, d, f)
        else if not (end == 0) && (size == 0)
        then (panicked, d, f)
        else if not enough
        then (err out_of_clusters, d, f')
        else write_in d f' id n chain' offset buf
  ]

  -- The table and the inode that `truncate` leaves.
  unfoldable pub cut : Fat32 → ℕ → List ℕ → ℕ → ℕ → Fat32
  cut f id chain new_size needed =
      if not (ltb needed (length chain))
      then f
      else if new_size == 0
      then set_first id 0
          (record f { fat_cache = set (clear_all chain f.fat_cache) (get_or chain 0 0) fat_free })
      else let keep = if needed == 0 then 1 else needed in
        record f {
          fat_cache =
              set (clear_all (drop keep chain) f.fat_cache) (get_or chain (keep - 1) 0) fat_eoc;
        }

  abbrev pub truncate_inode : D → Fat32 → ℕ → ℕ → Option FatInode → Result (Unit {0}) × D × Fat32
  truncate_inode d f id n none = (err inode_not_found, d, f)
  truncate_inode d f id n (some i) =
      let new_size = n % 2 ^ 32 in
      let size = bytes_per_cluster f in
      let chain = cluster_chain f i.start_cluster in
      if i.is_directory
      then (err not_regular, d, f)
      else if not (new_size == 0) && (size == 0)
      then (panicked, d, f)
      else persist tt id d (set_size id new_size (cut f id chain new_size (needed new_size size)))

  unfoldable pub truncate : D → Fat32 → ℕ → ℕ → Result (Unit {0}) × D × Fat32
  truncate d f id n = truncate_inode d f id n (Dict.lookup id f.inodes)
