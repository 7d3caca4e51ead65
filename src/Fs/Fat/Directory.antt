-- ===== src/Fs/Fat/Directory.antt =====
-- Directories of kernel/src/fs/fat32.rs. Changes of the disk and of the table that an error comes
-- after are kept, as there.
use flutter_os.Prelude.{
  ℕ, ◌*◌, ◌/◌, Bool, true, false, Option, none, some, List, [], ◌∷◌, leb, if◌then◌else◌, set,
  replicate,
}
use flutter_os.Prelude.Dict
use flutter_os.Prelude.Dict.{num_key, text_same}
use flutter_os.Fs.Result.{
  file_not_found, already_exists, dir_exists, ata_read_failed, ata_write_failed, out_of_clusters,
  no_free_slot, empty_chain, flush_failed, Result, ok, err, panicked, DirEntry, Name,
}
use flutter_os.Fs.Fat.{
  RawDirEntry, Fat32, fat_eoc, attr_dir, is_dir, first_cluster, cluster_chain, alloc_cluster,
  free_chain, find_inode, intern_inode,
}
use flutter_os.Fs.Fat.Disk.{
  Disk, bytes_per_cluster, last_of, read_cluster, write_cluster, flush_fat, read_dir_raw,
}
use flutter_os.Fs.Fat.Names.{to_short_name}
use flutter_os.Fs.Fat.Slots.{
  attr_archive, plain_entry, free_slot, named_slot, put_entry, find_entry, list_entries,
  directory_of,
}

-- The operator `?` of code that changes the disk and the table.
abbrev pub and_next :
    {D A B : Type 0}
    → Result A × D × Fat32
    → (D → Fat32 → Result B × D × Fat32)
    → Result B × D × Fat32
and_next (ok a, d, f) next = next d f
and_next (err e, d, f) next = (err e, d, f)
and_next (panicked, d, f) next = (panicked, d, f)

module _ {D : Type 0} (k : Disk D) where
  -- The first pass of `write_dir_entry`: none when the clusters have no free slot.
  unfoldable pub fill_slot : D → Fat32 → List ℕ → RawDirEntry → Option (Result (Unit {0}) × D)
  fill_slot d f [] e = none
  fill_slot d f (c ∷ chain) e =
      let later = fill_slot d f chain e in
      elim (read_cluster k d f c) [
        | none ↦ some (err ata_read_failed, d)
        | some buf ↦ elim (free_slot (bytes_per_cluster f / 32) 0 buf) [
          | none ↦ later
          | some i ↦ elim (write_cluster k d f c (put_entry buf (i * 32) e)) [
            | none ↦ some (err ata_write_failed, d)
            | some d' ↦ some (ok tt, d')
          ]
        ]
      ]

  abbrev pub flushed : D → Fat32 → Result (Unit {0}) × D × Fat32
  flushed d f =
      let (done, d') = flush_fat k d f in (if done then ok tt else err flush_failed, d', f)

  -- The second part of `write_dir_entry`, with the clusters of the directory.
  unfoldable pub extend_dir : D → Fat32 → List ℕ → RawDirEntry → Result (Unit {0}) × D × Fat32
  extend_dir d f chain e =
      let (cluster, f') = alloc_cluster f in
      elim cluster [
        | none ↦ (err out_of_clusters, d, f')
        | some c ↦ elim (last_of chain) [
          | none ↦ (err empty_chain, d, f')
          | some last ↦
              let g = record f' { fat_cache = set (set f'.fat_cache last c) c fat_eoc } in
              elim (write_cluster k d g c (put_entry (replicate (bytes_per_cluster g) 0) 0 e)) [
                | none ↦ (err ata_write_failed, d, g)
                | some d' ↦ flushed d' g
              ]
        ]
      ]

  unfoldable pub write_dir_entry :
      D → Fat32 → ℕ → RawDirEntry → Bool → Result (Unit {0}) × D × Fat32
  write_dir_entry d f dir_cluster e create_new =
      let chain = cluster_chain f dir_cluster in
      elim (fill_slot d f chain e) [
        | some (r, d') ↦ (r, d', f)
        | none ↦ if create_new then extend_dir d f chain e else (err no_free_slot, d, f)
      ]

  -- The loop of `remove_dir_entry` over the clusters.
  unfoldable pub clear_slot : D → Fat32 → List ℕ → List ℕ → Result (Unit {0}) × D
  clear_slot d f [] short = (err file_not_found, d)
  clear_slot d f (c ∷ chain) short =
      let later = clear_slot d f chain short in
      elim (read_cluster k d f c) [
        | none ↦ (err ata_read_failed, d)
        | some buf ↦ elim (named_slot short (bytes_per_cluster f / 32) 0 buf) [
          | err e ↦ (err e, d)
          | panicked ↦ (panicked, d)
          | ok none ↦ later
          | ok (some i) ↦ elim (write_cluster k d f c (set buf (i * 32) 229)) [
            | none ↦ (err ata_write_failed, d)
            | some d' ↦ (ok tt, d')
          ]
        ]
      ]

  unfoldable pub remove_dir_entry : D → Fat32 → ℕ → List ℕ → Result (Unit {0}) × D
  remove_dir_entry d f dir_cluster short = clear_slot d f (cluster_chain f dir_cluster) short

  unfoldable pub readdir : (List ℕ → Bool) → D → Fat32 → ℕ → Result (List DirEntry) × Fat32
  readdir is_utf8 d f id = elim (directory_of f id) [
    | err e ↦ (err e, f)
    | panicked ↦ (panicked, f)
    | ok dir ↦
        let (entries, f') = list_entries is_utf8 (read_dir_raw k d f dir.start_cluster) f in
        (ok entries, f')
  ]

  module _ (upper : Name → Name) where
    unfoldable pub lookup : D → Fat32 → ℕ → Name → Result ℕ × Fat32
    lookup d f id name = elim (directory_of f id) [
      | err e ↦ (err e, f)
      | panicked ↦ (panicked, f)
      | ok dir ↦
          elim (find_entry (to_short_name upper name) (read_dir_raw k d f dir.start_cluster)) [
            | none ↦ (err file_not_found, f)
            | some e ↦
                let (found, f') = intern_inode f (first_cluster e) e.file_size (is_dir e) in
                (ok found, f')
          ]
    ]

    -- The end of `create` and `mkdir`: the entry is written, the table is flushed and the inode made.
    abbrev pub entered : D → Fat32 → ℕ → RawDirEntry → (ℕ × Bool) → Result ℕ × D × Fat32
    entered d f dir_cluster e (cluster, dir) =
        and_next (write_dir_entry d f dir_cluster e true) (λ d' f'.
          and_next (flushed d' f')
            (λ d'' f''. let (id, g) = intern_inode f'' cluster 0 dir in (ok id, d'', g)))

    unfoldable pub create : D → Fat32 → ℕ → Name → Result ℕ × D × Fat32
    create d f id name = elim (directory_of f id) [
      | err e ↦ (err e, d, f)
      | panicked ↦ (panicked, d, f)
      | ok dir ↦
          let short = to_short_name upper name in
          elim (find_entry short (read_dir_raw k d f dir.start_cluster)) [
            | some e ↦ (err already_exists, d, f)
            | none ↦ entered d f dir.start_cluster (plain_entry short attr_archive 0) (0, false)
          ]
    ]

    -- The entries "." and ".." stand at the front of a cluster of zeros.
    abbrev pub dot_entries : Fat32 → ℕ → ℕ → List ℕ
    dot_entries f own parent =
        put_entry
          (put_entry (replicate (bytes_per_cluster f) 0) 0
            (plain_entry (46 ∷ replicate 10 32) attr_dir own))
          32 (plain_entry (46 ∷ 46 ∷ replicate 9 32) attr_dir parent)

    unfoldable pub mkdir : D → Fat32 → ℕ → Name → Result ℕ × D × Fat32
    mkdir d f id name = elim (directory_of f id) [
      | err e ↦ (err e, d, f)
      | panicked ↦ (panicked, d, f)
      | ok dir ↦
          let short = to_short_name upper name in
          elim (find_entry short (read_dir_raw k d f dir.start_cluster)) [
            | some e ↦ (err dir_exists, d, f)
            | none ↦
                let (cluster, f') = alloc_cluster f in
                elim cluster [
                  | none ↦ (err out_of_clusters, d, f')
                  | some c ↦ elim (write_cluster k d f' c (dot_entries f' c dir.start_cluster)) [
                    | none ↦ (err ata_write_failed, d, f')
                    | some d' ↦
                        entered d' f' dir.start_cluster (plain_entry short attr_dir c) (c, true)
                  ]
                ]
          ]
    ]

    abbrev pub forget : Fat32 → RawDirEntry → Fat32
    forget f e = elim (find_inode (first_cluster e) (is_dir e) f.inodes) [
      | none ↦ f
      | some id ↦ record f { inodes = Dict.erase id f.inodes }
    ]

    unfoldable pub unlink : D → Fat32 → ℕ → Name → Result (Unit {0}) × D × Fat32
    unlink d f id name = elim (directory_of f id) [
      | err e ↦ (err e, d, f)
      | panicked ↦ (panicked, d, f)
      | ok dir ↦
          let short = to_short_name upper name in
          elim (find_entry short (read_dir_raw k d f dir.start_cluster)) [
            | none ↦ (err file_not_found, d, f)
            | some e ↦
                let f' = if leb 2 (first_cluster e) then free_chain f (first_cluster e) else f in
                let (removed, d') = remove_dir_entry d f' dir.start_cluster short in
                and_next (removed, d', f')
                  (λ d'' g. and_next (flushed d'' g) (λ d''' g'. (ok tt, d''', forget g' e)))
          ]
    ]
