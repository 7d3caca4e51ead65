-- ===== src/Fs/Fat/Sizes.antt =====
-- The sizes in directory entries: update_dir_entry_size of kernel/src/fs/fat32.rs.
use flutter_os.Prelude.{
  ℕ, zero, suc, ◌+◌, ◌*◌, ◌/◌, Bool, true, false, ◌||◌, ◌&&◌, Option, none, some, List, [], ◌∷◌,
  ◌++◌, leb, ◌==◌, if◌then◌else◌, take, drop, get_or,
}
use flutter_os.Kernel.Bytes.{to_bytes}
use flutter_os.Prelude.Dict
use flutter_os.Prelude.Dict.{num_key}
use flutter_os.Fs.Result.{
  inode_not_found, ata_read_failed, ata_write_failed, Result, ok, err, panicked,
}
use flutter_os.Fs.Fat.{Fat32, attr_lfn, entry_at, first_cluster, is_dir, cluster_chain}
use flutter_os.Fs.Fat.Disk.{Disk, bytes_per_cluster, read_cluster, write_cluster}

-- What a directory shows of a cluster: where the entry that names it stands, or the directories below.
pub data Search : Type 0 where
  found : ℕ → Search
  deeper : List ℕ → Search

-- Entries that are free, parts of long names, or begin with a dot.
abbrev is_passed : List ℕ → ℕ → Bool
is_passed buf off =
    let first = get_or buf off 0 in
    (first == 0) || ((first == 229) || ((get_or buf (off + 11) 0 == attr_lfn) || (first == 46)))

-- The entries of a cluster's bytes from number i on, so many.
unfoldable pub search_from : ℕ → ℕ → List ℕ → ℕ → Search
search_from zero i buf target = deeper []
search_from (suc n) i buf target =
    let rest = search_from n (i + 1) buf target in
    let e = entry_at buf (i * 32) in
    let cluster = first_cluster e in
    if is_passed buf (i * 32)
    then rest
    else if cluster == target
    then found (i * 32)
    else if is_dir e && leb 2 cluster
    then elim rest [ found off ↦ found off | deeper dirs ↦ deeper (cluster ∷ dirs) ]
    else rest

-- The four bytes of the size written over.
abbrev pub with_size : List ℕ → ℕ → ℕ → List ℕ
with_size buf off size = take (off + 28) buf ++ (to_bytes 4 size ++ drop (off + 32) buf)

-- The loop over the directories below, up to the first in which the entry stands.
unfoldable pub each_dir : {D : Type 0} → (D → ℕ → Result Bool × D) → List ℕ → D → Result Bool × D
each_dir body [] d = (ok false, d)
each_dir body (dir ∷ dirs) d =
    let (r, d') = body d dir in
    elim r [
      | err e ↦ (err e, d')
      | panicked ↦ (panicked, d')
      | ok true ↦ (ok true, d')
      | ok false ↦ each_dir body dirs d'
    ]

module _ {D : Type 0} (k : Disk D) where
  -- The clusters of a directory: none for the cluster found and its entry written, or the directories.
  unfoldable pub size_in_chain : D → Fat32 → List ℕ → ℕ → ℕ → Result (Option (List ℕ)) × D
  size_in_chain d f [] target size = (ok (some []), d)
  size_in_chain d f (c ∷ chain) target size =
      let (r, d') = size_in_chain d f chain target size in
      elim (read_cluster k d f c) [
        | none ↦ (err ata_read_failed, d)
        | some buf ↦ elim (search_from (bytes_per_cluster f / 32) 0 buf target) [
          | found off ↦ elim (write_cluster k d f c (with_size buf off size)) [
            | none ↦ (err ata_write_failed, d)
            | some d'' ↦ (ok none, d'')
          ]
          | deeper dirs ↦ elim r [
            | err e ↦ (err e, d')
            | panicked ↦ (panicked, d')
            | ok none ↦ (ok none, d')
            | ok (some more) ↦ (ok (some (dirs ++ more)), d')
          ]
        ]
      ]

  -- `update_size_recursive`. Directories nested deeper than the depth overflow the stack.
  unfoldable pub update_size : ℕ → D → Fat32 → ℕ → ℕ → ℕ → Result Bool × D
  update_size zero d f dir target size = (panicked, d)
  update_size (suc depth) d f dir target size =
      let (r, d') = size_in_chain d f (cluster_chain f dir) target size in
      elim r [
        | err e ↦ (err e, d')
        | panicked ↦ (panicked, d')
        | ok none ↦ (ok true, d')
        | ok (some dirs) ↦ each_dir (λ d'' sub. update_size depth d'' f sub target size) dirs d'
      ]

  unfoldable pub update_dir_entry_size : ℕ → D → Fat32 → ℕ → Result (Unit {0}) × D
  update_dir_entry_size depth d f id = elim (Dict.lookup id f.inodes) [
    | none ↦ (err inode_not_found, d)
    | some n ↦
        let (r, d') = update_size depth d f f.root_cluster n.start_cluster n.size in
        if n.is_directory
        then (ok tt, d)
        else (elim r [ err e ↦ (err e, d') | panicked ↦ (panicked, d') | ok done ↦ (ok tt, d') ])
  ]
