-- ===== src/Kernel/Fd.antt =====
-- kernel/src/syscalls/fd.rs: the file descriptor table of a process.
pub mod Laws
pub mod Close
use flutter_os.Prelude.{
  ℕ, zero, suc, ◌+◌, Bool, true, false, not, ◌&&◌, Option, none, some, List, [], ◌∷◌, ◌++◌, get_or,
  set, take, drop, replicate, ltb, leb, if◌then◌else◌, length,
}

abbrev pub max_fds : ℕ
max_fds = 128

pub data FdKind : Type 0 where
  stream : FdKind
  file : (sector offset size : ℕ) → FdKind
  vfs_file : (mount_idx inode_id offset : ℕ) → FdKind
  framebuffer : FdKind
  free : FdKind

-- `kind == FdKind::Free`
abbrev pub is_free : FdKind → Bool
is_free free = true
is_free _ = false

-- The entry at each index; `FdEntry` has the one field `kind`.
pub record FdTable : Type 0 where
  pub entries : List FdKind

unfoldable pub new : FdTable
new = record { entries = stream ∷ stream ∷ stream ∷ replicate 125 free }

-- `for i in i0..i0 + n`: the first index whose entry is free.
unfoldable pub first_free : ℕ → ℕ → List FdKind → Option ℕ
first_free zero i es = none
first_free (suc n) i es =
    let rest = first_free n (i + 1) es in if is_free (get_or es i free) then some i else rest

unfoldable pub alloc : FdTable → FdKind → Option ℕ × FdTable
alloc t kind = elim (first_free 125 3 t.entries) [
  | none ↦ (none, t)
  | some i ↦ (some i, record { entries = set t.entries i kind })
]

unfoldable pub get : FdTable → ℕ → Option FdKind
get t fd =
    if ltb fd max_fds && not (is_free (get_or t.entries fd free))
    then some (get_or t.entries fd free)
    else none

unfoldable pub close : FdTable → ℕ → Bool × FdTable
close t fd =
    if leb 3 fd && ltb fd max_fds && not (is_free (get_or t.entries fd free))
    then (true, record { entries = set t.entries fd free })
    else (false, t)

abbrev pub count_open : List FdKind → ℕ
count_open [] = 0
count_open (e ∷ es) = if is_free e then count_open es else suc (count_open es)

unfoldable pub open_count : FdTable → ℕ
open_count t = count_open (drop 3 t.entries)

-- `for i in i0..i0 + n { entries[i] = Free }`
unfoldable pub clear_from : ℕ → ℕ → List FdKind → List FdKind
clear_from zero i es = es
clear_from (suc n) i es = clear_from n (i + 1) (set es i free)

unfoldable pub clear : FdTable → FdTable
clear t = record { entries = clear_from 125 3 t.entries }

abbrev pub with_offset : FdKind → ℕ → FdKind
with_offset (vfs_file m i o) n = vfs_file m i n
with_offset stream n = stream
with_offset (file s o z) n = file s o z
with_offset framebuffer n = framebuffer
with_offset free n = free

unfoldable pub update_vfs_offset : FdTable → ℕ → ℕ → FdTable
update_vfs_offset t fd n =
    if ltb fd max_fds
    then record { entries = set t.entries fd (with_offset (get_or t.entries fd free) n) }
    else t
