-- ===== src/Fs/Fat/Tests.antt =====
-- Runs of the FAT32 file system on a small disk.
use flutter_os.Prelude.{
  false, ℕ, ◌+◌, ◌*◌, ◌≡◌, refl, some, List, [], ◌∷◌, ◌++◌, length, take, drop, arith,
}
use flutter_os.Fs.Result.{ok}
use flutter_os.Fs.Fat.{Fat32, fat_eoc, cluster_to_lba, free_from, alloc_cluster}
use flutter_os.Fs.Fat.Disk.{Disk, read_cluster, write_cluster, read_rounds, write_rounds}
use flutter_os.Fs.Fat.{RawDirEntry}
use flutter_os.Fs.Fat.Entries.{IsEntry}
use flutter_os.Prelude.Dict
use flutter_os.Fs.Fat.Offsets.{write-read-clusters}

-- A disk of sectors of four bytes, with one sector in a cluster, and a file in the clusters 2 and 3.
abbrev image : Disk (List ℕ)
image = record {
  read_sectors = λ d lba n. some (take n (drop (lba * 4) d));
  write_sectors =
      λ d lba bytes. some (take (lba * 4) d ++ (bytes ++ drop (lba * 4 + length bytes) d));
}

abbrev two_clusters : Fat32
two_clusters = record {
  part_start_lba = 0;
  bytes_per_sector = 4;
  sectors_per_cluster = 1;
  rsvd_sec_cnt = 0;
  num_fats = 2;
  fat_sz32 = 5;
  root_cluster = 2;
  data_start_lba = 0;
  fat_cache = 0 ∷ 0 ∷ 3 ∷ fat_eoc ∷ 0 ∷ [];
  inodes = [];
  next_inode = 1;
}

abbrev before : List ℕ
before = 1 ∷ 2 ∷ 3 ∷ 4 ∷ 5 ∷ 6 ∷ 7 ∷ 8 ∷ []

abbrev after : List ℕ
after = 1 ∷ 9 ∷ 9 ∷ 4 ∷ 5 ∷ 6 ∷ 7 ∷ 8 ∷ []

second-read : read_cluster image before two_clusters 3 ≡ some (5 ∷ 6 ∷ 7 ∷ 8 ∷ [])
unfolding read_cluster cluster_to_lba
second-read = refl

first-read : read_cluster image before two_clusters 2 ≡ some (1 ∷ 2 ∷ 3 ∷ 4 ∷ [])
unfolding read_cluster cluster_to_lba
first-read = refl

first-written : write_cluster image before two_clusters 2 (1 ∷ 9 ∷ 9 ∷ 4 ∷ []) ≡ some after
unfolding write_cluster cluster_to_lba
first-written = refl

write-read-clusters_example :
    (read_rounds image 2 before two_clusters (2 ∷ 3 ∷ []) 5 7 [] ≡ ok (6 ∷ 7 ∷ []))
    × (write_rounds image 2 before two_clusters (2 ∷ 3 ∷ []) 5 5 7 (9 ∷ 9 ∷ []) ≡ (ok 2, after))
write-read-clusters_example =
    write-read-clusters image 1 before after two_clusters (2 ∷ 3 ∷ []) 5 2 (9 ∷ 9 ∷ [])
      (5 ∷ 6 ∷ 7 ∷ 8 ∷ []) (1 ∷ 2 ∷ 3 ∷ 4 ∷ []) (omega arith) (omega arith) (omega arith)
      second-read first-read first-written

abbrev three_clusters : Fat32
three_clusters = record two_clusters { fat_cache = 0 ∷ 0 ∷ 3 ∷ fat_eoc ∷ fat_eoc ∷ [] }

fourth-allocated : alloc_cluster two_clusters ≡ (some 4, three_clusters)
unfolding alloc_cluster free_from
fourth-allocated = refl

abbrev note : RawDirEntry
note = record {
  name = 78 ∷ 79 ∷ 84 ∷ 69 ∷ 32 ∷ 32 ∷ 32 ∷ 32 ∷ 84 ∷ 88 ∷ 84 ∷ [];
  attr = 32;
  nt_res = 0;
  crt_time_tenth = 0;
  crt_time = 700;
  crt_date = 1;
  lst_acc_date = 2;
  fst_clus_hi = 1;
  wrt_time = 300;
  wrt_date = 4;
  fst_clus_lo = 513;
  file_size = 70000;
}

note-IsEntry : IsEntry note
note-IsEntry = record {
  name_size = refl;
  crt_time_in = omega arith;
  crt_date_in = omega arith;
  lst_acc_date_in = omega arith;
  fst_clus_hi_in = omega arith;
  wrt_time_in = omega arith;
  wrt_date_in = omega arith;
  fst_clus_lo_in = omega arith;
  file_size_in = omega arith;
}

-- A file of three clusters, cut to six bytes: it keeps two.
abbrev long_file : Fat32
long_file = record two_clusters {
  fat_cache = 0 ∷ 0 ∷ 3 ∷ 4 ∷ fat_eoc ∷ [];
  inodes = (7, record { start_cluster = 2; size = 12; is_directory = false }) ∷ [];
}
