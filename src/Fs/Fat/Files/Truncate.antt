-- ===== src/Fs/Fat/Files/Truncate.antt =====
-- What `truncate` of kernel/src/fs/fat32.rs leaves of a file.
use flutter_os.Prelude.{ℕ}
use flutter_os.Prelude.Dict
use flutter_os.Prelude.Dict.{num_key, lookup-insert}
use flutter_os.Fs.Fat.{Fat32, FatInode, cluster_chain}
use flutter_os.Fs.Result.{Result}
use flutter_os.Fs.Fat.Disk.{Disk, bytes_per_cluster, set_size}
use flutter_os.Fs.Fat.Files.{needed, cut}

module _ {D : Type 0} (k : Disk D) (depth : ℕ) where
  -- The state that a call tries to write when it passes its tests.
  abbrev left : Fat32 → ℕ → ℕ → FatInode → Fat32
  left f id n i =
      set_size id n
        (cut k depth f id (cluster_chain f i.start_cluster) n (needed n (bytes_per_cluster f)))
