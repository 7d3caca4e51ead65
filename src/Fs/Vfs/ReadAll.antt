-- ===== src/Fs/Vfs/ReadAll.antt =====
-- Reading whole files: `read_all` of kernel/src/fs/mod.rs.
use flutter_os.Prelude.{
  ℕ, zero, suc, ◌+◌, ◌-◌, ◌^◌, ◌≤◌, ◌<◌, ◌≡◌, refl, Bool, true, false, some, List, [], ◌∷◌, ◌++◌,
  leb, length, take, arith, Bool-cases, inl, inr, ◌∙◌, ap, ap₂, length-append,
}
use flutter_os.Fs.Result.{
  ok, Result-cases, FileType, regular, directory, char_device, block_device, is_regular, Name,
  FileOps,
}
use flutter_os.Fs.Tmpfs
use flutter_os.Fs.Tmpfs.{Inode, Tmpfs, get, ops}
use flutter_os.Fs.Tmpfs.Laws.{read_of, read_bytes_lem, size_of}
use flutter_os.Fs.Path.{is_empty}
use flutter_os.Fs.Vfs.{
  Mount, Vfs, VfsFile, mount_at, call, resolve, opened, open_file, advance, read, size, read_loop,
  read_all,
}
use flutter_os.Fs.Vfs.Walk.{with_fs-same}
use flutter_os.Fs.Vfs.Create.{opened_eq, call_eq, file_type_of, new_file}

some_bytes : (bytes : List ℕ) → is_empty bytes ≡ false → 1 ≤ length bytes
some_bytes [] h = absurd (ground (arith, h))
some_bytes (x ∷ bytes) h = ground arith

read_loop_full :
    {F : Type 0} (o : FileOps F) (fuel : ℕ) (v : Vfs F) (file : VfsFile) (total : ℕ) (buf : List ℕ)
    → total ≤ length buf
    → read_loop o fuel v file total buf ≡ (ok buf, v)
unfolding read_loop
read_loop_full o zero v file total buf h = refl
read_loop_full o (suc fuel) v file total buf h =
    let full : leb total (length buf) ≡ true = ground (arith, h) in rw full refl

-- As many rounds of the loop of `read_all` as bytes are missing are enough: more rounds give the same
-- result, whatever the file system returns.
pub read_loop_fuel :
    {F : Type 0} (o : FileOps F) (more fuel : ℕ) (v : Vfs F) (file : VfsFile) (total : ℕ)
    (buf : List ℕ)
    → fuel ≤ more
    → total ≤ length buf + fuel
    → read_loop o more v file total buf ≡ read_loop o fuel v file total buf
unfolding read_loop
read_loop_fuel o more zero v file total buf le h =
    read_loop_full o more v file total buf (omega (arith, h))
read_loop_fuel o zero (suc fuel) v file total buf le h = absurd (omega (arith, le))
read_loop_fuel o (suc more) (suc fuel) v file total buf le h =
    elim (Bool-cases (leb total (length buf))) [
      | inl full ↦ rw full refl
      | inr room ↦
          let (r, file', w) = read o v file (total - length buf) in
          rw room (elim (Result-cases r) [
            | inl (bytes, e) ↦ elim (Bool-cases (is_empty bytes)) [
              | inl stop ↦ rw (e, stop) refl
              | inr more_bytes ↦
                  rw (e, more_bytes)
                    (read_loop_fuel o more fuel w file' total (buf ++ bytes) (omega (arith, le))
                      (omega (arith, h, length-append buf bytes, some_bytes bytes more_bytes)))
            ]
            | inr (inl (x, e)) ↦ rw e refl
            | inr (inr e) ↦ rw e refl
          ])
    ]

open_found :
    (v : Vfs Tmpfs) (path : Name) (create : Bool) (i id : ℕ)
    → resolve ops v path ≡ (ok (i, id), v)
    → open_file ops v path create ≡ opened ops v i id
unfolding open_file
open_found v path create i id h =
    let r = ap (λ x. x.0) h in let w = ap (λ x. x.1) h in rw (open_file, r, w) refl

regular_of : (t : FileType) → is_regular t ≡ true → t ≡ regular
regular_of regular h = refl
regular_of directory h = absurd (ground (arith, h))
regular_of char_device h = absurd (ground (arith, h))
regular_of block_device h = absurd (ground (arith, h))

whole : (bytes : List ℕ) → take (length bytes) bytes ≡ bytes
whole [] = refl
whole (x ∷ bytes) = ap (λ k. x ∷ k) (whole bytes)

-- A read of a whole file through a mount.
read_whole :
    (v : Vfs Tmpfs) (i id : ℕ) (m : Mount Tmpfs) (f : Inode)
    → mount_at i v.mounts ≡ some m
    → get m.fs id ≡ some f
    → is_regular f.file_type ≡ true
    → length f.content < 2 ^ 64
    → read ops v (new_file i id) (length f.content)
      ≡ (ok f.content, advance (new_file i id) (length f.content), v)
unfolding read
read_whole v i id m f at e reg h =
    let n = length f.content in
    let got : Tmpfs.read m.fs id 0 n ≡ ok f.content =
      read_of m.fs id 0 n f e reg
      ∙ (read_bytes_lem f.content 0 n (omega (arith, h)) (omega arith)
          ∙ ap (λ b. ok b) (whole f.content)) in
    let c : call v i (λ fs. (Tmpfs.read fs id 0 n, fs)) ≡ (ok f.content, v) =
      call_eq v i m (λ fs. (Tmpfs.read fs id 0 n, fs)) at
      ∙ ap₂ (λ r w. (r, w)) got (with_fs-same v i m at) in
    let r = ap (λ x. x.0) c in let w = ap (λ x. x.1) c in rw (read, r, w) refl

size_eq :
    (v : Vfs Tmpfs) (i id : ℕ) (m : Mount Tmpfs) (f : Inode)
    → mount_at i v.mounts ≡ some m
    → get m.fs id ≡ some f
    → size ops v (new_file i id) ≡ ok (length f.content)
unfolding size
size_eq v i id m f at e = rw (size, at, size_of m.fs id f e) refl

-- One round reads all, and the next one ends the loop.
loop_whole :
    (v : Vfs Tmpfs) (file file' : VfsFile) (bytes : List ℕ)
    → read ops v file (length bytes) ≡ (ok bytes, file', v)
    → read_loop ops (length bytes) v file (length bytes) [] ≡ (ok bytes, v)
unfolding read_loop
loop_whole v file file' [] e = refl
loop_whole v file file' (x ∷ bytes) e =
    let n = length (x ∷ bytes) in
    let none_yet : leb n 0 ≡ false = ground arith in
    let all : n - 0 ≡ n = omega arith in
    let r = ap (λ k. k.0) e in
    let f = ap (λ k. k.1) e in
    let w = ap (λ k. k.2) e in
    rw (none_yet, all, r, f, w)
      (read_loop_full ops (length bytes) v file' n (x ∷ bytes) (omega arith))

-- Reading a path whole gives the content of the regular file that it resolves to, and changes nothing.
pub read_all_lem :
    (v : Vfs Tmpfs) (path : Name) (i id : ℕ) (m : Mount Tmpfs) (f : Inode)
    → resolve ops v path ≡ (ok (i, id), v)
    → mount_at i v.mounts ≡ some m
    → get m.fs id ≡ some f
    → is_regular f.file_type ≡ true
    → length f.content < 2 ^ 64
    → read_all ops v path ≡ (ok f.content, v)
unfolding read_all
read_all_lem v path i id m f up at e reg h =
    let o : open_file ops v path false ≡ (ok (new_file i id), v) =
      open_found v path false i id up
      ∙ (opened_eq v i id m at
          ∙ ap (λ t. (ok (record { inode_id = id; mount_idx = i; offset = 0; file_type = t }), v))
              (file_type_of m.fs id f e ∙ regular_of f.file_type reg)) in
    rw
      (
        read_all,
        o,
        size_eq v i id m f at e,
        loop_whole v (new_file i id) (advance (new_file i id) (length f.content)) f.content
            (read_whole v i id m f at e reg h),
      )
      refl
