-- ===== src/Kernel/Syscall/Names.antt =====
-- The calls on paths: mkdir, unlink, stat, chdir, getcwd and getdents of kernel/src/syscalls/mod.rs.
use flutter_os.Prelude.{
  ℕ, ◌+◌, min, Bool, ◌||◌, none, some, List, [], ◌∷◌, ltb, ◌==◌, if◌then◌else◌, length, take,
  replicate,
}
use flutter_os.Prelude.Int.{ℤ, pos}
use flutter_os.Fs.Result.{
  Result, FileType, regular, directory, char_device, block_device, is_directory, Name, DirEntry,
  FileOps,
}
use flutter_os.Fs.Path.{parent_of, name_of}
use flutter_os.Fs.Vfs
use flutter_os.Fs.Vfs.{Vfs}
use flutter_os.Kernel.Syscall.World.{
  World, Reply, returns, panics, enoent, efault, enotdir, einval, as_i64, store, to_bytes,
  read_path, on_result, on_path,
}

abbrev pub mode_of : FileType → ℕ
mode_of directory = 16384
mode_of regular = 32768
mode_of char_device = 8192
mode_of block_device = 24576

abbrev pub type_byte : FileType → ℕ
type_byte regular = 1
type_byte directory = 2
type_byte char_device = 3
type_byte block_device = 4

-- The entry of 72 bytes: the type, at most 63 bytes of the name and a zero, and zeros at the end.
unfoldable pub store_entry : ℕ → DirEntry → (ℕ → ℕ) → ℕ → ℕ
store_entry at e memory =
    let n = min (length e.name) 63 in
    store (at + 65) (replicate 7 0) (
      store (at + 1 + n) (0 ∷ [])
        (store (at + 1) (take n e.name) (store at (type_byte e.file_type ∷ []) memory)))

-- The loop of `sys_getdents`: the bytes written, and the memory.
unfoldable pub store_entries : ℕ → ℕ → ℕ → List DirEntry → (ℕ → ℕ) → ℕ × (ℕ → ℕ)
store_entries buf count written [] memory = (written, memory)
store_entries buf count written (e ∷ es) memory =
    let rest = store_entries buf count (written + 72) es (store_entry (buf + written) e memory) in
    if ltb count (written + 72) then (written, memory) else rest

module _ {F : Type 0} where
  unfoldable pub sys_getcwd : World F → ℕ → ℕ → Reply × World F
  sys_getcwd w buf size =
      if (buf == 0) || (size == 0)
      then (returns efault, w)
      else if ltb size (length w.cwd + 1)
      then (returns einval, w)
      else (
        returns (pos 0),
        record w { memory = store (buf + length w.cwd) (0 ∷ []) (store buf w.cwd w.memory) },
      )

  -- The end of `sys_chdir`, at the inode that the path resolves to.
  unfoldable pub enter : FileOps F → Name → ℕ × ℕ → World F → Reply × World F
  enter o p at w = elim (Vfs.mount_at at.0 w.vfs.mounts) [
    | none ↦ (panics, w)
    | some m ↦
        if is_directory (o.file_type m.fs at.1)
        then (returns (pos 0), record w { cwd = p })
        else (returns enotdir, w)
  ]

  module _ (is_utf8 : List ℕ → Bool) (o : FileOps F) where
    -- `sys_mkdir` and `sys_unlink`: a method of the path's mount with the inode of the path's parent.
    unfoldable pub on_parent :
        {A : Type 0} → World F → ℕ → ℤ → (F → ℕ → Name → Result A × F) → Reply × World F
    on_parent w path code method = on_path w (read_path is_utf8 w.memory path) (λ p.
        elim (Vfs.find_mount w.vfs p) [
          | none ↦ (returns enoent, w)
          | some (i, _) ↦ on_result w (Vfs.resolve o w.vfs (parent_of p)) enoent (λ dir w'.
              on_result w' (Vfs.call w'.vfs i (λ fs. method fs dir.1 (name_of p))) code
                (λ _ w''. (returns (pos 0), w'')))
        ])

    unfoldable pub sys_mkdir : World F → ℕ → Reply × World F
    sys_mkdir w path = on_parent w path einval o.mkdir

    unfoldable pub sys_unlink : World F → ℕ → Reply × World F
    sys_unlink w path = on_parent w path enoent o.unlink

    -- The fields of `StatBuf`, the size in 8 bytes and the mode in 4.
    unfoldable pub sys_stat : World F → ℕ → ℕ → Reply × World F
    sys_stat w path buf = on_path w (read_path is_utf8 w.memory path) (λ p.
        if buf == 0
        then (returns efault, w)
        else on_result w (Vfs.resolve o w.vfs p) enoent (λ at w'.
          elim (Vfs.mount_at at.0 w'.vfs.mounts) [
            | none ↦ (panics, w')
            | some m ↦
                let size = to_bytes 8 (o.size m.fs at.1) in
                let mode = to_bytes 4 (mode_of (o.file_type m.fs at.1)) in
                (
                  returns (pos 0),
                  record w' { memory = store (buf + 8) mode (store buf size w'.memory) },
                )
          ]))

    unfoldable pub sys_chdir : World F → ℕ → Reply × World F
    sys_chdir w path =
        on_path w (read_path is_utf8 w.memory path)
          (λ p. on_result w (Vfs.resolve o w.vfs p) enoent (enter o p))

    unfoldable pub sys_getdents : World F → ℕ → ℕ → ℕ → Reply × World F
    sys_getdents w path buf count = on_path w (read_path is_utf8 w.memory path) (λ p.
        if buf == 0
        then (returns efault, w)
        else on_result w (Vfs.readdir o w.vfs p) enotdir (λ entries w'.
          let (written, memory) = store_entries buf count 0 entries w'.memory in
          (returns (as_i64 written), record w' { memory = memory })))
