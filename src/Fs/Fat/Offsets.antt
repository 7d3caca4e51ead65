-- ===== src/Fs/Fat/Offsets.antt =====
-- Which clusters the loops of read and write in kernel/src/fs/fat32.rs go to.
use flutter_os.Prelude.{
  ℕ, zero, suc, ◌+◌, ◌-◌, ◌/◌, ◌%◌, ◌≤◌, ◌<◌, ◌≡◌, refl, min, true, false, some, List, [], ◌++◌,
  leb, length, take, drop, get_or, arith,
}
use flutter_os.Fs.Result.{ok}
use flutter_os.Fs.Fat.{Fat32}
use flutter_os.Fs.Fat.Disk.{
  Disk, bytes_per_cluster, read_cluster, write_cluster, read_rounds, write_rounds,
}

zero_div : (size : ℕ) → 0 < size → 0 / size ≡ 0
zero_div size h = omega (arith, h)

module _ {D : Type 0} (k : Disk D) where
  write_rounds_end :
      (n : ℕ) (d : D) (f : Fat32) (chain : List ℕ) (offset pos end : ℕ) (buf : List ℕ)
      → end ≤ pos
      → write_rounds k n d f chain offset pos end buf ≡ (ok (pos - offset), d)
  unfolding write_rounds
  write_rounds_end zero d f chain offset pos end buf h = refl
  write_rounds_end (suc n) d f chain offset pos end buf h =
      let done : leb end pos ≡ true = ground (arith, h) in rw (write_rounds, done) refl

  read_rounds_end :
      (n : ℕ) (d : D) (f : Fat32) (chain : List ℕ) (pos end : ℕ) (acc : List ℕ)
      → end ≤ pos
      → read_rounds k n d f chain pos end acc ≡ ok acc
  unfolding read_rounds
  read_rounds_end zero d f chain pos end acc h = refl
  read_rounds_end (suc n) d f chain pos end acc h =
      let done : leb end pos ≡ true = ground (arith, h) in rw (read_rounds, done) refl

  -- The last round of `read`, in the cluster at an index.
  read_last :
      (n : ℕ) (d : D) (f : Fat32) (chain : List ℕ) (pos end index count : ℕ) (there : List ℕ)
      → pos / bytes_per_cluster f ≡ index
      → index < length chain
      → pos < end
      → min (end - pos) (bytes_per_cluster f - pos % bytes_per_cluster f) ≡ count
      → pos + count ≡ end
      → read_cluster k d f (get_or chain index 0) ≡ some there
      → read_rounds k (suc n) d f chain pos end []
        ≡ ok (take count (drop (pos % bytes_per_cluster f) there))
  unfolding read_rounds
  read_last n d f chain pos end index count there at within more part done there_read =
      let going : leb end pos ≡ false = ground (arith, more) in
      let inside : leb (length chain) index ≡ false = ground (arith, within) in
      rw (read_rounds, going, at, inside, there_read, part)
        (read_rounds_end n d f chain (pos + count) end _ (omega (arith, done)))

  -- The last round of `write`.
  write_last :
      (n : ℕ) (d d' : D) (f : Fat32) (chain : List ℕ) (offset end count : ℕ) (buf there : List ℕ)
      → 0 / bytes_per_cluster f ≡ 0
      → 0 < length chain
      → offset < end
      → min (end - offset) (bytes_per_cluster f - offset % bytes_per_cluster f) ≡ count
      → offset + count ≡ end
      → read_cluster k d f (get_or chain 0 0) ≡ some there
      → (let from = offset % bytes_per_cluster f in
          let bytes = take from there ++ (take count buf ++ drop (from + count) there) in
          write_cluster k d f (get_or chain 0 0) bytes ≡ some d')
      → write_rounds k (suc n) d f chain offset offset end buf ≡ (ok count, d')
  unfolding write_rounds
  write_last n d d' f chain offset end count buf there at within more part done there_read written =
      let going : leb end offset ≡ false = ground (arith, more) in
      let inside : leb (length chain) 0 ≡ false = ground (arith, within) in
      let none_yet : offset - offset ≡ 0 = omega arith in
      let all : offset + count - offset ≡ count = omega arith in
      let finished : write_rounds k n d' f chain offset (offset + count) end buf
          ≡ (ok (offset + count - offset), d') =
        write_rounds_end n d' f chain offset (offset + count) end buf (omega (arith, done)) in
      rw
        (
          write_rounds, going, none_yet, at, inside, there_read, none_yet, at, part, written, part,
          finished, all,
        )
        refl

  -- A range of bytes that lies in one cluster of a file is read from the cluster that its offset
  -- stands for, number offset / size of the chain, but is written to the first cluster of the chain,
  -- whatever the offset is, at the place in the cluster that the offset stands for.
  pub write-read-clusters :
      (n : ℕ) (d d' : D) (f : Fat32) (chain : List ℕ) (offset count : ℕ) (buf there first : List ℕ)
      → 0 < count
      → offset % bytes_per_cluster f + count ≤ bytes_per_cluster f
      → offset / bytes_per_cluster f < length chain
      → read_cluster k d f (get_or chain (offset / bytes_per_cluster f) 0) ≡ some there
      → read_cluster k d f (get_or chain 0 0) ≡ some first
      → (let from = offset % bytes_per_cluster f in
          let bytes = take from first ++ (take count (drop 0 buf) ++ drop (from + count) first) in
          write_cluster k d f (get_or chain 0 0) bytes ≡ some d')
      → (read_rounds k (suc n) d f chain offset (offset + count) []
          ≡ ok (take count (drop (offset % bytes_per_cluster f) there)))
        × (write_rounds k (suc n) d f chain offset offset (offset + count) buf ≡ (ok count, d'))
  write-read-clusters n d d' f chain offset count buf there first pos fits within hr hw done =
      let more : offset < offset + count = omega (arith, pos) in
      let all : offset + count - offset ≡ count = omega arith in
      let least : min count (bytes_per_cluster f - offset % bytes_per_cluster f) ≡ count =
        ground (arith, fits) in
      let part : min (offset + count - offset) (bytes_per_cluster f - offset % bytes_per_cluster f)
          ≡ count =
        rw all least in
      let positive : 0 < bytes_per_cluster f = omega (arith, pos, fits) in
      (
        read_last n d f chain offset (offset + count) (offset / bytes_per_cluster f) count there
            refl within more part refl hr,
        write_last n d d' f chain offset (offset + count) count buf first
            (zero_div (bytes_per_cluster f) positive) (omega (arith, within)) more part refl hw
            done,
      )
