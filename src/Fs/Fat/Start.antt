-- ===== src/Fs/Fat/Start.antt =====
-- Finding and opening the file system: find_fat32_partition and init of kernel/src/fs/fat32.rs.
use flutter_os.Prelude.{
  ℕ, zero, suc, ◌+◌, ◌*◌, Bool, true, false, ◌||◌, ◌&&◌, not, Option, none, some, List, [], ◌∷◌,
  ◌==◌, if◌then◌else◌, take, drop, get_or,
}
use flutter_os.Kernel.Bytes.{le_bytes}
use flutter_os.Fs.Fat.{Fat32, intern_inode}
use flutter_os.Fs.Vfs.{Vfs, mount}
use flutter_os.Fs.Fat.Disk.{Disk, load_fat}

abbrev pub part_type_fat32 : ℕ
part_type_fat32 = 12

abbrev pub part_type_fat32_chs : ℕ
part_type_fat32_chs = 11

-- A number of so many bytes at an offset.
abbrev pub field_at : List ℕ → ℕ → ℕ → ℕ
field_at bytes off n = le_bytes (take n (drop off bytes))

abbrev has_signature : List ℕ → Bool
has_signature sector = (get_or sector 510 0 == 85) && (get_or sector 511 0 == 170)

abbrev pub is_fat32 : List ℕ → ℕ → Bool
is_fat32 mbr off =
    (get_or mbr (off + 4) 0 == part_type_fat32) || (get_or mbr (off + 4) 0 == part_type_fat32_chs)

-- `for i in (0..n).rev()`
unfoldable pub partition_below : ℕ → List ℕ → Option (ℕ × ℕ)
partition_below zero mbr = none
partition_below (suc i) mbr =
    let off = 446 + i * 16 in
    let rest = partition_below i mbr in
    if is_fat32 mbr off then some (field_at mbr (off + 8) 4, field_at mbr (off + 12) 4) else rest

-- What a boot sector says of the file system that begins at a sector, if it is one that is supported.
unfoldable pub parse_bpb : ℕ → List ℕ → Option Fat32
parse_bpb start bpb =
    let bytes_per_sector = field_at bpb 11 2 in
    let sectors_per_cluster = get_or bpb 13 0 in
    let rsvd_sec_cnt = field_at bpb 14 2 in
    let num_fats = get_or bpb 16 0 in
    let fat_sz32 = field_at bpb 36 4 in
    if not (has_signature bpb)
    then none
    else if not (bytes_per_sector == 512) || ((sectors_per_cluster == 0) || (fat_sz32 == 0))
    then none
    else some (record {
      part_start_lba = start;
      bytes_per_sector = bytes_per_sector;
      sectors_per_cluster = sectors_per_cluster;
      rsvd_sec_cnt = rsvd_sec_cnt;
      num_fats = num_fats;
      fat_sz32 = fat_sz32;
      root_cluster = field_at bpb 44 4;
      data_start_lba = start + rsvd_sec_cnt + num_fats * fat_sz32;
      fat_cache = [];
      inodes = [];
      next_inode = 1;
    })

module _ {D : Type 0} (k : Disk D) where
  unfoldable pub find_fat32_partition : D → Option (ℕ × ℕ)
  find_fat32_partition d = elim (k.read_sectors d 0 512) [
    | none ↦ none
    | some mbr ↦ if has_signature mbr then partition_below 4 mbr else none
  ]

  -- The table loaded, and the root directory entered as inode 1.
  abbrev pub loaded : D → Fat32 → Option Fat32
  loaded d f =
      let (done, f') = load_fat k d f in
      let (id, f'') = intern_inode f' f'.root_cluster 0 true in if done then some f'' else none

  -- The file system that is made, whose root directory is inode 1.
  unfoldable pub init : Bool → D → Option Fat32
  init disk_present d = if not disk_present then none else (elim (find_fat32_partition d) [
    | none ↦ none
    | some (start, part_size) ↦ elim (k.read_sectors d start 512) [
      | none ↦ none
      | some bpb ↦ elim (parse_bpb start bpb) [ none ↦ none | some f ↦ loaded d f ]
    ]
  ])

  -- The rest of `init`: whether it succeeds, and the mount at /disk.
  unfoldable pub mounted : {F : Type 0} → (Fat32 → F) → Bool → D → Vfs F → Bool × Vfs F
  mounted box disk_present d v = elim (init disk_present d) [
    | none ↦ (false, v)
    | some f ↦ (true, mount v (47 ∷ 100 ∷ 105 ∷ 115 ∷ 107 ∷ []) 1 (box f))
  ]
