-- ===== src/Fs/Fat/Disk.antt =====
-- Reading and writing the clusters of files: kernel/src/fs/fat32.rs. A disk reads so many bytes from a
-- sector on and writes bytes there, or fails.
use flutter_os.Prelude.{
  ℕ, zero, suc, ◌+◌, ◌-◌, ◌*◌, ◌/◌, ◌%◌, ◌^◌, min, Bool, true, false, not, ◌&&◌, ◌||◌, Option, none,
  some, List, [], ◌∷◌, ◌++◌, leb, ◌==◌, if◌then◌else◌, length, take, drop, get_or, set,
}
use flutter_os.Prelude.Dict
use flutter_os.Prelude.Dict.{num_key}
use flutter_os.Fs.Result.{
  inode_not_found, ata_read_failed, ata_write_failed, Result, ok, err, panicked,
}
use flutter_os.Fs.Fat.{
  RawDirEntry, Fat32, FatInode, entry_at, cluster_to_lba, table_bytes, parse_table, cluster_chain,
  alloc_cluster,
}

pub record Disk (D : Type 0) : Type 0 where
  pub read_sectors : D → ℕ → ℕ → Option (List ℕ)
  pub write_sectors : D → ℕ → List ℕ → Option D

abbrev pub bytes_per_cluster : Fat32 → ℕ
bytes_per_cluster f = f.sectors_per_cluster * f.bytes_per_sector

-- `chain.push`, and the link from the last cluster of the chain.
abbrev pub last_of : List ℕ → Option ℕ
last_of [] = none
last_of (c ∷ []) = some c
last_of (c ∷ d ∷ cs) = last_of (d ∷ cs)

-- `inner.inodes.get_mut(&id)` with one field written.
abbrev pub set_first : ℕ → ℕ → Fat32 → Fat32
set_first id cluster f = elim (Dict.lookup id f.inodes) [
  | none ↦ f
  | some n ↦ record f { inodes = Dict.insert id (record n { start_cluster = cluster }) f.inodes }
]

abbrev pub resized : ℕ → ℕ → Fat32 → Option FatInode → Fat32
resized id size f none = f
resized id size f (some n) = record f {
  inodes = Dict.insert id (record n { size = size }) f.inodes;
}

abbrev pub set_size : ℕ → ℕ → Fat32 → Fat32
set_size id size f = resized id size f (Dict.lookup id f.inodes)

-- The loop of `write` that makes the chain of a file long enough, of so many rounds: whether there were
-- clusters enough, and the chain.
unfoldable pub grow_chain : ℕ → ℕ → Fat32 → List ℕ → Bool × List ℕ × Fat32
grow_chain zero id f chain = (true, chain, f)
grow_chain (suc n) id f chain =
    let (cluster, f') = alloc_cluster f in
    elim cluster [
      | none ↦ (false, chain, f')
      | some c ↦ elim (last_of chain) [
        | none ↦ grow_chain n id (set_first id c f') (c ∷ [])
        | some last ↦
            grow_chain n id (record f' { fat_cache = set f'.fat_cache last c }) (chain ++ (c ∷ []))
      ]
    ]

module _ {D : Type 0} (k : Disk D) where
  unfoldable pub read_cluster : D → Fat32 → ℕ → Option (List ℕ)
  read_cluster d f cluster = k.read_sectors d (cluster_to_lba f cluster) (bytes_per_cluster f)

  unfoldable pub write_cluster : D → Fat32 → ℕ → List ℕ → Option D
  write_cluster d f cluster buf =
      k.write_sectors d (cluster_to_lba f cluster) (take (bytes_per_cluster f) buf)

  -- The copies of the table from number i on, so many.
  unfoldable pub flush_from : ℕ → ℕ → D → Fat32 → Bool × D
  flush_from zero i d f = (true, d)
  flush_from (suc n) i d f =
      elim (k.write_sectors d (f.part_start_lba + f.rsvd_sec_cnt + i * f.fat_sz32)
        (table_bytes f)) [ none ↦ (false, d) | some d' ↦ flush_from n (i + 1) d' f ]

  -- The first copy is written in any case.
  unfoldable pub flush_fat : D → Fat32 → Bool × D
  flush_fat d f = flush_from (suc (f.num_fats - 1)) 0 d f

  unfoldable pub load_fat : D → Fat32 → Bool × Fat32
  load_fat d f =
      let size = f.fat_sz32 * f.bytes_per_sector in
      elim (k.read_sectors d (f.part_start_lba + f.rsvd_sec_cnt) size) [
        | none ↦ (false, f)
        | some bytes ↦ (true, record f { fat_cache = parse_table (size / 4) bytes })
      ]

  -- The entries of a cluster's bytes from number i on, so many.
  abbrev entries_from : ℕ → ℕ → List ℕ → List RawDirEntry
  entries_from zero i buf = []
  entries_from (suc n) i buf = entry_at buf (i * 32) ∷ entries_from n (i + 1) buf

  unfoldable pub entries_of : D → Fat32 → List ℕ → List RawDirEntry
  entries_of d f [] = []
  entries_of d f (c ∷ chain) =
      let rest = entries_of d f chain in
      elim (read_cluster d f c) [
        | none ↦ []
        | some buf ↦ entries_from (bytes_per_cluster f / 32) 0 buf ++ rest
      ]

  unfoldable pub read_dir_raw : D → Fat32 → ℕ → List RawDirEntry
  read_dir_raw d f dir_cluster = entries_of d f (cluster_chain f dir_cluster)

  -- The loop of `read` from `pos` on, of so many rounds, with the bytes read so far.
  unfoldable pub read_rounds : ℕ → D → Fat32 → List ℕ → ℕ → ℕ → List ℕ → Result (List ℕ)
  read_rounds zero d f chain pos end acc = ok acc
  read_rounds (suc n) d f chain pos end acc =
      let size = bytes_per_cluster f in
      let from = pos % size in
      let count = min (end - pos) (size - from) in
      if leb end pos || leb (length chain) (pos / size)
      then ok acc
      else (elim (read_cluster d f (get_or chain (pos / size) 0)) [
        | none ↦ err ata_read_failed
        | some scratch ↦
            read_rounds n d f chain (pos + count) end (acc ++ take count (drop from scratch))
      ])

  -- Every round reads a byte at least, so that as many rounds as bytes are enough. A
  -- loop that is entered divides by the size of a cluster.
  unfoldable pub read : D → Fat32 → ℕ → ℕ → ℕ → Result (List ℕ)
  read d f id offset count = elim (Dict.lookup id f.inodes) [
    | none ↦ err inode_not_found
    | some n ↦
        if n.is_directory || (count == 0) || leb n.size offset
        then ok []
        else let end = min n.size ((offset + count) % 2 ^ 64) in
          if not (leb end offset) && (bytes_per_cluster f == 0)
          then panicked
          else read_rounds (end - offset) d f (cluster_chain f n.start_cluster) offset end []
  ]

  -- The loop of `write` over the data, of so many rounds: the bytes written and the disk.
  unfoldable pub write_rounds : ℕ → D → Fat32 → List ℕ → ℕ → ℕ → ℕ → List ℕ → Result ℕ × D
  write_rounds zero d f chain offset pos end buf = (ok (pos - offset), d)
  write_rounds (suc n) d f chain offset pos end buf =
      let size = bytes_per_cluster f in
      let cluster = get_or chain ((pos - offset) / size) 0 in
      let from = pos % size in
      let count = min (end - pos) (size - from) in
      if leb end pos || leb (length chain) ((pos - offset) / size)
      then (ok (pos - offset), d)
      else (elim (read_cluster d f cluster) [
        | none ↦ (err ata_read_failed, d)
        | some scratch ↦
            let bytes =
              take from scratch
              ++ (take count (drop (pos - offset) buf) ++ drop (from + count) scratch) in
            elim (write_cluster d f cluster bytes) [
              | none ↦ (err ata_write_failed, d)
              | some d' ↦ write_rounds n d' f chain offset (pos + count) end buf
            ]
      ])
