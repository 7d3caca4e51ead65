-- ===== src/Fs/Dev/Laws.antt =====
-- What a read of the disk and of the framebuffer returns: kernel/src/fs/devfs.rs.
use flutter_os.Prelude.{
  ℕ, zero, suc, ◌+◌, ◌-◌, ◌*◌, ◌/◌, ◌%◌, ◌^◌, ◌≤◌, ◌<◌, ◌≡◌, refl, ap, sym, ◌∙◌, min, Bool, some,
  List, [], ◌∷◌, ◌++◌, ◌==◌, length, take, drop, get_or, length-take, Bool-cases, inl, inr, arith,
  ap₂,
}
use flutter_os.Fs.Result.{ok}
use flutter_os.Fs.Fat.Disk.{Disk}
use flutter_os.Fs.Dev.{
  Machine, hda_inode, fb_inode, bytes_from, store_bytes, read_frame, write_frame, read_block, read,
  write, read_device, write_device,
}

-- `ap` with its ends named.
pub along {ℓ} : {A : Type ℓ} (f : ℕ → A) (a b : ℕ) → a ≡ b → f a ≡ f b
along f a b e = ap f e

drop-bytes_from :
    (memory : ℕ → ℕ) (n i b : ℕ)
    → i ≤ n
    → drop i (bytes_from memory b n) ≡ bytes_from memory (b + i) (n - i)
unfolding bytes_from
drop-bytes_from memory n zero b h = ap₂ (bytes_from memory) (omega arith) (omega arith)
drop-bytes_from memory zero (suc i) b h = absurd (omega (arith, h))
drop-bytes_from memory (suc n) (suc i) b h =
    drop-bytes_from memory n i (b + 1) (omega (arith, h))
    ∙ ap₂ (bytes_from memory) (omega arith) (omega arith)

take-bytes_from :
    (memory : ℕ → ℕ) (n c b : ℕ) → c ≤ n → take c (bytes_from memory b n) ≡ bytes_from memory b c
unfolding bytes_from
take-bytes_from memory n zero b h = refl
take-bytes_from memory zero (suc c) b h = absurd (omega (arith, h))
take-bytes_from memory (suc n) (suc c) b h =
    ap (λ t. memory b ∷ t) (take-bytes_from memory n c (b + 1) (omega (arith, h)))

pub bytes_from-append :
    (memory : ℕ → ℕ) (n p b : ℕ)
    → bytes_from memory b n ++ bytes_from memory (b + n) p ≡ bytes_from memory b (n + p)
unfolding bytes_from
bytes_from-append memory zero p b = ap₂ (bytes_from memory) (omega arith) (omega arith)
bytes_from-append memory (suc n) p b =
    let tail : bytes_from memory (b + 1) n ++ bytes_from memory (b + suc n) p
        ≡ bytes_from memory (b + 1) (n + p) =
      along (λ q. bytes_from memory (b + 1) n ++ bytes_from memory q p) (b + suc n) (b + 1 + n)
        (omega arith)
      ∙ bytes_from-append memory n p (b + 1) in
    ap (λ t. memory b ∷ t) tail
    ∙ along (bytes_from memory b) (suc (n + p)) (suc n + p) (omega arith)

bytes_from-list :
    (memory : ℕ → ℕ) (b : ℕ) (xs : List ℕ)
    → ((i : ℕ) → i < length xs → memory (b + i) ≡ get_or xs i 0)
    → bytes_from memory b (length xs) ≡ xs
unfolding bytes_from
bytes_from-list memory b [] h = refl
bytes_from-list memory b (x ∷ xs) h =
    ap₂ (λ y ys. y ∷ ys) (along memory b (b + 0) (omega arith) ∙ h 0 (omega arith))
      (bytes_from-list memory (b + 1) xs
        (λ i l. along memory (b + 1 + i) (b + suc i) (omega arith) ∙ h (suc i) (omega (arith, l))))

-- The part of a sector that a round takes.
piece :
    (memory : ℕ → ℕ) (pos c : ℕ)
    → c ≤ 512 - pos % 512
    → take c (drop (pos % 512) (bytes_from memory (pos / 512 * 512) 512)) ≡ bytes_from memory pos c
piece memory pos c h =
    let i = pos % 512 in
    ap (take c) (drop-bytes_from memory 512 i (pos / 512 * 512) (omega arith))
    ∙ take-bytes_from memory (512 - i) c (pos / 512 * 512 + i) h
    ∙ along (λ b. bytes_from memory b c) (pos / 512 * 512 + i) pos (omega arith)

-- What is stored is read back.
bytes_from-store_bytes :
    (memory : ℕ → ℕ) (b n : ℕ) (xs : List ℕ)
    → length xs ≡ n
    → bytes_from (store_bytes memory b xs) b n ≡ xs
unfolding store_bytes
bytes_from-store_bytes memory b n xs e =
    along (bytes_from (store_bytes memory b xs) b) n (length xs) (sym e)
    ∙ bytes_from-list (store_bytes memory b xs) b xs (λ i h. ground (arith, h))

read_frame_lem :
    (memory : ℕ → ℕ) (base len offset : ℕ) (bytes : List ℕ)
    → offset + length bytes < 2 ^ 64
    → let start = min offset len in
      let written = take (min (len - start) (length bytes)) bytes in
      read_frame (store_bytes memory (base + start) written) base len offset (length bytes)
      ≡ written
unfolding read_frame
read_frame_lem memory base len offset bytes hb =
    let start = min offset len in
    let written = take (min (len - start) (length bytes)) bytes in
    bytes_from-store_bytes memory (base + start)
      ((min ((offset + length bytes) % 2 ^ 64) len + 2 ^ 64 - start) % 2 ^ 64) written
      (length-take (min (len - start) (length bytes)) bytes ∙ ground (arith, hb))

module _ {D : Type 0} (k : Disk D) (is_utf8 : List ℕ → Bool) where
  read_block_lem :
      (content : ℕ → ℕ) (sectors : ℕ) (d : D)
      → ((lba : ℕ)
          → lba < sectors
          → k.read_sectors d lba 512 ≡ some (bytes_from content (lba * 512) 512))
      → sectors ≤ 2 ^ 28
      → (n pos left : ℕ) → left ≤ n
      → pos + left ≤ sectors * 512
      → read_block k is_utf8 n d pos left ≡ bytes_from content pos left
  unfolding read_block bytes_from
  read_block_lem content sectors d h hs zero pos left ln end =
      along (bytes_from content pos) 0 left (omega (arith, ln))
  read_block_lem content sectors d h hs (suc n) pos left ln end = elim (Bool-cases (left == 0)) [
    | inl done ↦ rw done (along (bytes_from content pos) 0 left (ground (arith, done)))
    | inr more ↦
        let i = pos % 512 in
        let count = min (512 - pos % 512) left in
        let some_left : 0 < left = ground (arith, more) in
        let sector : k.read_sectors d (pos / 512) 512
            ≡ some (bytes_from content (pos / 512 * 512) 512) =
          h (pos / 512) (omega arith) in
        let some_taken : 0 < count = ground (arith, some_left) in
        let at_most : count ≤ left = ground arith in
        let rest : read_block k is_utf8 n d ((pos + count) % 2 ^ 64) (left - count)
            ≡ bytes_from content (pos + count) (left - count) =
          ap (λ q. read_block k is_utf8 n d q (left - count)) (omega (arith, end, hs, at_most))
          ∙ read_block_lem content sectors d h hs n (pos + count) (left - count)
              (omega (arith, ln, some_taken)) (omega (arith, end, at_most)) in
        rw (more, sector)
          (ap₂ (λ xs ys. xs ++ ys) (piece content pos count (ground arith)) rest
            ∙ bytes_from-append content count (left - count) pos
            ∙ ap (bytes_from content pos) (omega (arith, at_most)))
  ]

  -- A read of the disk within its first sectors, at whatever offset, returns the bytes that stand
  -- there, if those sectors can be read.
  pub read-hda :
      (content : ℕ → ℕ) (sectors : ℕ) (m : Machine D) (offset count : ℕ)
      → ((lba : ℕ)
          → lba < sectors
          → k.read_sectors m.disk lba 512 ≡ some (bytes_from content (lba * 512) 512))
      → sectors ≤ 2 ^ 28
      → offset + count ≤ sectors * 512
      → read k is_utf8 m hda_inode offset count ≡ (ok (bytes_from content offset count), m)
  unfolding read read_device
  read-hda content sectors m offset count h hs end =
      ap (λ t. (ok t, m))
        (read_block_lem content sectors m.disk h hs count offset count (omega arith) end)

  -- What a write to the framebuffer reports is the part that fits behind the offset, and a read at the
  -- same offset returns that part.
  pub write-read-framebuffer :
      (m : Machine D) (base len offset : ℕ) (bytes : List ℕ)
      → m.framebuffer_info ≡ some (base, len)
      → offset + length bytes < 2 ^ 64
      → let n = min (len - offset) (length bytes) in
        let (r, m') = write k is_utf8 m fb_inode offset bytes in
        (r ≡ ok n) × ((read k is_utf8 m' fb_inode offset (length bytes)).0 ≡ ok (take n bytes))
  unfolding read write read_device write_device write_frame
  write-read-framebuffer m base len offset bytes h hb =
      let start = min offset len in
      let fits : min (len - start) (length bytes) ≡ min (len - offset) (length bytes) =
        ground arith in
      rw h (
        ap ok fits,
        ap ok (
            read_frame_lem m.memory base len offset bytes hb
            ∙ along (λ n. take n bytes) (min (len - start) (length bytes))
                (min (len - offset) (length bytes)) fits),
      )
