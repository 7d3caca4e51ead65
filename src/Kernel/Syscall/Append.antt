-- ===== src/Kernel/Syscall/Append.antt =====
-- The write call on a file of the file system in memory: kernel/src/syscalls/mod.rs down to
-- kernel/src/fs/tmpfs.rs.
use flutter_os.Prelude.{
  ℕ, ◌+◌, ◌-◌, ◌%◌, ◌^◌, ◌≤◌, ◌<◌, ◌≡◌, refl, ◌≢◌, Bool, true, false, ◌&&◌, some, List,
  if◌then◌else◌, ◌==◌, ltb, leb, length, get_or, arith, Bool-cases, inl, inr, ◌∙◌, ap,
}
use flutter_os.Prelude.Int.{pos}
use flutter_os.Fs.Result.{ok, is_regular}
use flutter_os.Fs.Tmpfs
use flutter_os.Fs.Tmpfs.{Inode, Tmpfs, ops}
use flutter_os.Fs.Tmpfs.Laws.{byte_at, write_lem}
use flutter_os.Fs.Vfs
use flutter_os.Fs.Vfs.{Mount, Vfs, VfsFile, mount_at, with_fs, call, advance}
use flutter_os.Fs.Vfs.Walk.{mount_at-set_fs}
use flutter_os.Fs.Vfs.Create.{call_eq}
use flutter_os.Kernel.Fd
use flutter_os.Kernel.Fd.{FdTable, vfs_file}
use flutter_os.Kernel.Syscall.World.{World, returns, as_i64, load, current_fds, set_fds}
use flutter_os.Kernel.Syscall.Files.{file_at, update_offset, write_file, sys_write}
use flutter_os.Kernel.Syscall.Fds.{
  length-load, get_or-load, get-update_vfs_offset, current_fds-set_fds,
}

vfs_write_eq :
    (v : Vfs Tmpfs) (i id offset n : ℕ) (bytes : List ℕ) (m : Mount Tmpfs)
    → mount_at i v.mounts ≡ some m
    → (Tmpfs.write m.fs id offset bytes).0 ≡ ok n
    → Vfs.write ops v (file_at i id offset) bytes
      ≡ (ok n, advance (file_at i id offset) n, with_fs v i (Tmpfs.write m.fs id offset bytes).1)
unfolding Vfs.write
vfs_write_eq v i id offset n bytes m at done =
    let c = call_eq v i m (λ fs. Tmpfs.write fs id offset bytes) at in
    let r = ap (λ x. x.0) c ∙ done in let w = ap (λ x. x.1) c in rw (Vfs.write, r, w) refl

module _ (is_utf8 : List ℕ → Bool) where
  write_file_eq :
      (w : World Tmpfs) (fd n : ℕ) (bytes : List ℕ) (f f' : VfsFile) (v : Vfs Tmpfs)
      → Vfs.write ops w.vfs f bytes ≡ (ok n, f', v)
      → write_file is_utf8 ops w fd bytes f
        ≡ (returns (as_i64 n), update_offset (record w { vfs = v }) fd f'.offset)
  unfolding write_file
  write_file_eq w fd n bytes f f' v e =
      let r = ap (λ x. x.0) e in
      let g = ap (λ x. x.1) e in let u = ap (λ x. x.2) e in rw (write_file, r, g, u) refl

  sys_write_eq :
      (w : World Tmpfs) (fd buf count i id offset : ℕ)
      → 3 ≤ fd
      → buf ≢ 0
      → Fd.get (current_fds w) fd ≡ some (vfs_file i id offset)
      → sys_write is_utf8 ops w (pos fd) buf count
        ≡ write_file is_utf8 ops w fd (load w.memory buf count) (file_at i id offset)
  unfolding sys_write
  sys_write_eq w fd buf count i id offset past ne open' =
      let null : (buf == 0) ≡ false = ground (arith, ne) in
      let one : (fd == 1) ≡ false = ground (arith, past) in
      let two : (fd == 2) ≡ false = ground (arith, past) in
      rw (sys_write, null, one, two, open') refl

same_vfs : (w : World Tmpfs) (fds : FdTable) → (set_fds w fds).vfs ≡ w.vfs
unfolding set_fds
same_vfs w fds = ground arith

same_fds : (w : World Tmpfs) (v : Vfs Tmpfs) → current_fds (record w { vfs = v }) ≡ current_fds w
unfolding current_fds
same_fds w v = refl

offset_after :
    (w : World Tmpfs) (v : Vfs Tmpfs) (fd i id offset next : ℕ)
    → length (current_fds w).entries ≡ 128
    → Fd.get (current_fds w) fd ≡ some (vfs_file i id offset)
    → (Fd.get (current_fds (update_offset (record w { vfs = v }) fd next)) fd
        ≡ some (vfs_file i id next))
      × ((update_offset (record w { vfs = v }) fd next).vfs ≡ v)
unfolding update_offset
offset_after w v fd i id offset next full e =
    let u : World Tmpfs = record w { vfs = v } in
    let fds = Fd.update_vfs_offset (current_fds u) fd next in
    (
      rw (current_fds-set_fds u fds, same_fds w v)
          (get-update_vfs_offset (current_fds w) fd i id offset next full e),
      same_vfs u fds,
    )

-- The bytes of a file after a write of what memory holds.
byte_at-load :
    (m : ℕ → ℕ) (t t' : Tmpfs) (buf count id offset j : ℕ)
    → byte_at t' id j ≡ (
        if leb offset j && ltb j (offset + length (load m buf count))
        then get_or (load m buf count) (j - offset) 0
        else byte_at t id j)
    → byte_at t' id j
      ≡ (if leb offset j && ltb j (offset + count) then m (buf + (j - offset)) else byte_at t id j)
byte_at-load m t t' buf count id offset j e =
    elim (Bool-cases (leb offset j && ltb j (offset + count))) [
      | inl hit ↦
          ground (arith, e, hit, length-load m buf count, get_or-load m buf count (j - offset))
      | inr miss ↦ ground (arith, e, miss, length-load m buf count)
    ]

-- Writing `count` bytes through a descriptor of a regular file returns `count`. The file then holds
-- the bytes of the caller's buffer from the descriptor's offset on and its old bytes elsewhere, and
-- the descriptor stands behind them, where the next write goes. (The descriptor is not a standard
-- stream, the buffer is not null, the table has its 128 entries, and the end is below 2 ^ 63.)
pub sys_write-file :
    (is_utf8 : List ℕ → Bool) (w : World Tmpfs) (fd buf count i id offset : ℕ) (m : Mount Tmpfs)
    (f : Inode)
    → 3 ≤ fd
    → buf ≢ 0
    → length (current_fds w).entries ≡ 128
    → Fd.get (current_fds w) fd ≡ some (vfs_file i id offset)
    → mount_at i w.vfs.mounts ≡ some m
    → Tmpfs.get m.fs id ≡ some f
    → is_regular f.file_type ≡ true
    → offset + count < 2 ^ 63
    → let (r, w') = sys_write is_utf8 ops w (pos fd) buf count in
      (r ≡ returns (pos count))
      × (Fd.get (current_fds w') fd ≡ some (vfs_file i id (offset + count)))
      × ((m' : Mount Tmpfs) × (mount_at i w'.vfs.mounts ≡ some m')
          × ((j : ℕ)
              → byte_at m'.fs id j ≡ (
                  if leb offset j && ltb j (offset + count)
                  then w.memory (buf + (j - offset))
                  else byte_at m.fs id j)))
sys_write-file is_utf8 w fd buf count i id offset m f past ne full open' at e reg h =
    let bytes = load w.memory buf count in
    let n : length bytes ≡ count = length-load w.memory buf count in
    let t' = (Tmpfs.write m.fs id offset bytes).1 in
    let (done, _, holds, _) = write_lem m.fs id offset bytes f e reg (omega (arith, h, n)) in
    let v = with_fs w.vfs i t' in
    let small : as_i64 count ≡ pos count = ground (arith, h) in
    let next : (offset + count) % 2 ^ 64 ≡ offset + count = omega arith in
    let written = vfs_write_eq w.vfs i id offset count bytes m at (done ∙ ap (λ k. ok k) n) in
    let (moved, kept) = offset_after w v fd i id offset ((offset + count) % 2 ^ 64) full open' in
    rw
      (
        sys_write_eq is_utf8 w fd buf count i id offset past ne open',
        write_file_eq is_utf8 w fd count bytes (file_at i id offset)
            (advance (file_at i id offset) count) v written,
        small,
      )
      (
        refl,
        moved ∙ ap (λ k. some (vfs_file i id k)) next,
        (
          record m { fs = t' },
          ap (λ u. mount_at i u.mounts) kept ∙ mount_at-set_fs i t' w.vfs.mounts m at,
          λ j. byte_at-load w.memory m.fs t' buf count id offset j (holds j),
        ),
      )
