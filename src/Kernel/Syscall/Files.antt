-- ===== src/Kernel/Syscall/Files.antt =====
-- The calls on open files: open, read, write and close of kernel/src/syscalls/mod.rs.
use flutter_os.Prelude.{
  ℕ, zero, suc, ◌-◌, Bool, false, none, some, List, [], ◌∷◌, ◌++◌, ◌==◌, if◌then◌else◌, length,
}
use flutter_os.Prelude.Int.{ℤ, pos, negsuc, ltb_ℤ}
use flutter_os.Fs.Result.{ok, err, panicked, regular, FileOps}
use flutter_os.Fs.Vfs
use flutter_os.Fs.Vfs.{Vfs, VfsFile}
use flutter_os.Kernel.Fd
use flutter_os.Kernel.Fd.{FdTable, FdKind, stream, file, vfs_file, framebuffer, free}
use flutter_os.Kernel.Process.{has_bit}
use flutter_os.Kernel.Scheduler.{Busy, yield_now}
use flutter_os.Kernel.Syscall.World.{
  World, Reply, returns, panics, waits, ebadf, enoent, enomem, efault, einval, enosys, as_i64,
  index_of, store, load, read_path, current_fds, set_fds, on_result, on_path,
}

-- The text "<utf8 error>".
abbrev pub utf8_error : List ℕ
utf8_error = 60 ∷ 117 ∷ 116 ∷ 102 ∷ 56 ∷ 32 ∷ 101 ∷ 114 ∷ 114 ∷ 111 ∷ 114 ∷ 62 ∷ []

-- What is left of the serial input when at most so many bytes are taken, and the bytes.
unfoldable pub drain : ℕ → List ℕ → List ℕ × List ℕ
drain zero input = ([], input)
drain (suc n) [] = ([], [])
drain (suc n) (b ∷ input) = let (taken, rest) = drain n input in (b ∷ taken, rest)

-- The file that a descriptor stands for.
abbrev pub file_at : ℕ → ℕ → ℕ → VfsFile
file_at mount inode offset = record {
  inode_id = inode;
  mount_idx = mount;
  offset = offset;
  file_type = regular;
}

-- A descriptor is a number.
abbrev pub is_fd : ℕ → ℤ → Bool
is_fd k (pos n) = n == k
is_fd k (negsuc n) = false

module _ {F : Type 0} where
  -- A new descriptor, or ENOMEM.
  unfoldable pub alloc_fd : World F → FdKind → Reply × World F
  alloc_fd w kind =
      let (fd, fds) = Fd.alloc (current_fds w) kind in
      elim fd [
        | none ↦ (returns enomem, set_fds w fds)
        | some i ↦ (returns (as_i64 i), set_fds w fds)
      ]

  unfoldable pub update_offset : World F → ℕ → ℕ → World F
  update_offset w fd offset = set_fds w (Fd.update_vfs_offset (current_fds w) fd offset)

  -- Standard input: the first byte is waited for, then what has arrived is taken, at most `count`.
  unfoldable pub read_stdin : Busy → World F → ℕ → ℕ → Reply × World F
  read_stdin b w buf count = elim w.serial_in [
    | [] ↦ let (o, s) = yield_now b w.system in (waits o, record w { system = s })
    | x ∷ input ↦
        let (taken, rest) = drain (count - 1) input in
        (
          returns (as_i64 (suc (length taken))),
          record w { memory = store buf (x ∷ taken) w.memory; serial_in = rest },
        )
  ]

  module _ (is_utf8 : List ℕ → Bool) (o : FileOps F) where
    unfoldable pub sys_open : World F → ℕ → ℕ → Reply × World F
    sys_open w path flags = on_path w (read_path is_utf8 w.memory path) (λ name.
        on_result w (Vfs.open_file o w.vfs name (has_bit 6 flags)) enoent
          (λ f w'. alloc_fd w' (vfs_file f.mount_idx f.inode_id 0)))

    -- The offset in the table follows the file's, whether the read succeeds or not.
    unfoldable pub read_file : World F → ℕ → ℕ → ℕ → VfsFile → Reply × World F
    read_file w fd buf count f =
        let (r, f', v) = Vfs.read o w.vfs f count in
        let w' = update_offset (record w { vfs = v }) fd f'.offset in
        elim r [
          | ok bytes ↦
              (returns (as_i64 (length bytes)), record w' { memory = store buf bytes w.memory })
          | err e ↦ (returns einval, w')
          | panicked ↦ (panics, record w { vfs = v })
        ]

    unfoldable pub sys_read : Busy → World F → ℤ → ℕ → ℕ → Reply × World F
    sys_read b w fd buf count =
        if buf == 0
        then (returns efault, w)
        else if is_fd 0 fd
        then read_stdin b w buf count
        else (elim (Fd.get (current_fds w) (index_of fd)) [
          | none ↦ (returns ebadf, w)
          | some kind ↦ elim kind [
            | vfs_file m i offset ↦ read_file w (index_of fd) buf count (file_at m i offset)
            | stream ↦ (returns enosys, w)
            | file s a z ↦ (returns enosys, w)
            | framebuffer ↦ (returns enosys, w)
            | free ↦ (returns enosys, w)
          ]
        ])

    unfoldable pub write_file : World F → ℕ → List ℕ → VfsFile → Reply × World F
    write_file w fd bytes f =
        let (r, f', v) = Vfs.write o w.vfs f bytes in
        let w' = update_offset (record w { vfs = v }) fd f'.offset in
        elim r [
          | ok n ↦ (returns (as_i64 n), w')
          | err e ↦ (returns einval, w')
          | panicked ↦ (panics, record w { vfs = v })
        ]

    -- `from_utf8(slice).unwrap_or("<utf8 error>")`
    abbrev pub text_of : List ℕ → List ℕ
    text_of bytes = if is_utf8 bytes then bytes else utf8_error

    unfoldable pub sys_write : World F → ℤ → ℕ → ℕ → Reply × World F
    sys_write w fd buf count =
        let bytes = load w.memory buf count in
        if buf == 0
        then (returns efault, w)
        else if is_fd 1 fd
        then (
          returns (as_i64 count),
          record w {
            serial_out = w.serial_out ++ text_of bytes;
            screen_out = w.screen_out ++ text_of bytes;
          },
        )
        else if is_fd 2 fd
        then (returns (as_i64 count), record w { serial_out = w.serial_out ++ text_of bytes })
        else (elim (Fd.get (current_fds w) (index_of fd)) [
          | none ↦ (returns ebadf, w)
          | some kind ↦ elim kind [
            | vfs_file m i offset ↦ write_file w (index_of fd) bytes (file_at m i offset)
            | stream ↦ (returns ebadf, w)
            | file s a z ↦ (returns ebadf, w)
            | framebuffer ↦ (returns ebadf, w)
            | free ↦ (returns ebadf, w)
          ]
        ])

  unfoldable pub sys_close : World F → ℤ → Reply × World F
  sys_close w fd =
      let (closed, fds) = Fd.close (current_fds w) (index_of fd) in
      if ltb_ℤ fd (pos 3)
      then (returns ebadf, w)
      else (if closed then returns (pos 0) else returns ebadf, set_fds w fds)
