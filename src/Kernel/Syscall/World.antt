-- ===== src/Kernel/Syscall/World.antt =====
-- The state that the system calls of kernel/src/syscalls/mod.rs read and change, and their results.
-- User memory is a function from addresses to bytes; the serial line's input is the bytes that have
-- arrived.
use flutter_os.Prelude.{
  ℕ, zero, suc, ◌+◌, ◌-◌, ◌^◌, Bool, ◌&&◌, Option, none, some, List, [], ◌∷◌, ltb, leb, ◌==◌,
  if◌then◌else◌, length, get_or, ◌⊎◌, inl, inr,
}
use flutter_os.Prelude.Int.{ℤ, pos, negsuc}
use flutter_os.Fs.Result.{Result, ok, err, panicked, Name}
use flutter_os.Fs.Vfs.{Vfs}
use flutter_os.Kernel.Fd.{FdTable}
use flutter_os.Kernel.Process.{ProcessTable, get, modify}
pub use flutter_os.Kernel.Bytes.{to_bytes}
use flutter_os.Kernel.Scheduler.{System, Outcome}

pub record Framebuffer : Type 0 where
  pub address : ℕ
  pub len : ℕ
  pub width : ℕ
  pub height : ℕ
  pub stride : ℕ
  pub bpp : ℕ
  pub format : ℕ

pub record World (F : Type 0) : Type 0 where
  pub system : System
  pub global_fds : FdTable
  pub vfs : Vfs F
  pub cwd : Name
  pub memory : ℕ → ℕ
  pub serial_in : List ℕ
  pub serial_out : List ℕ
  pub screen_out : List ℕ
  pub ticks : ℕ
  pub screen : Option Framebuffer

-- How a call ends: with a value in `rax`, in a panic, in a switch to another process for good or until
-- the caller is switched back and tries again, or halted until a tick count.
pub data Reply : Type 0 where
  returns : ℤ → Reply
  panics : Reply
  exits : Outcome → Reply
  waits : Outcome → Reply
  sleeps : (target : ℕ) → Reply

-- The error codes.
abbrev pub eperm : ℤ
eperm = negsuc 0

abbrev pub enoent : ℤ
enoent = negsuc 1

abbrev pub ebadf : ℤ
ebadf = negsuc 8

abbrev pub echild : ℤ
echild = negsuc 9

abbrev pub enomem : ℤ
enomem = negsuc 11

abbrev pub efault : ℤ
efault = negsuc 13

abbrev pub enotdir : ℤ
enotdir = negsuc 19

abbrev pub einval : ℤ
einval = negsuc 21

abbrev pub enosys : ℤ
enosys = negsuc 37

-- `as i64` of a word, and the index that `fd as usize` is.
abbrev pub as_i64 : ℕ → ℤ
as_i64 n = if ltb n (2 ^ 63) then pos n else negsuc (2 ^ 64 - 1 - n)

abbrev pub index_of : ℤ → ℕ
index_of (pos n) = n
index_of (negsuc n) = 2 ^ 64 - 1 - n

-- Writing bytes to memory from an address on, and reading as many bytes.
unfoldable pub store : ℕ → List ℕ → (ℕ → ℕ) → ℕ → ℕ
store start bytes memory a =
    if leb start a && ltb a (start + length bytes) then get_or bytes (a - start) 0 else memory a

unfoldable pub load : (ℕ → ℕ) → ℕ → ℕ → List ℕ
load memory a zero = []
load memory a (suc n) = memory a ∷ load memory (a + 1) n

-- The bytes up to a zero, where one of the next so many is zero.
unfoldable pub cstring : ℕ → (ℕ → ℕ) → ℕ → Option (List ℕ)
cstring zero memory a = none
cstring (suc n) memory a =
    let rest = cstring n memory (a + 1) in
    if memory a == 0
    then some []
    else (elim rest [ none ↦ none | some bytes ↦ some (memory a ∷ bytes) ])

-- The path at an address: at most 255 bytes, valid for `core::str::from_utf8`.
unfoldable pub read_path : (List ℕ → Bool) → (ℕ → ℕ) → ℕ → ℤ ⊎ Name
read_path is_utf8 memory a = if a == 0 then inl efault else (elim (cstring 256 memory a) [
  | none ↦ inl einval
  | some bytes ↦ if is_utf8 bytes then inr bytes else inl einval
])

module _ {F : Type 0} where
  abbrev pub table_of : World F → ProcessTable
  table_of w = w.system.table

  abbrev pub with_table : World F → ProcessTable → World F
  with_table w t = record w { system = record w.system { table = t } }

  -- The table that `with_fd_table_mut` hands out, and its change.
  unfoldable pub current_fds : World F → FdTable
  current_fds w =
      let t = table_of w in
      if t.current_pid == 0
      then w.global_fds
      else (elim (get t t.current_pid) [ none ↦ w.global_fds | some p ↦ p.fd_table ])

  unfoldable pub set_fds : World F → FdTable → World F
  set_fds w fds =
      let t = table_of w in
      if t.current_pid == 0 then record w { global_fds = fds } else (elim (get t t.current_pid) [
        | none ↦ record w { global_fds = fds }
        | some _ ↦ with_table w (modify t t.current_pid (λ p. record p { fd_table = fds }))
      ])

  -- The match on a result of the file systems, with the code that an error gives.
  abbrev pub on_result :
      {A : Type 0}
      → World F
      → Result A × Vfs F
      → ℤ
      → (A → World F → Reply × World F)
      → Reply × World F
  on_result w (ok a, v) code next = next a (record w { vfs = v })
  on_result w (err e, v) code next = (returns code, record w { vfs = v })
  on_result w (panicked, v) code next = (panics, record w { vfs = v })

  -- The match on a path that is read.
  abbrev pub on_path : World F → ℤ ⊎ Name → (Name → Reply × World F) → Reply × World F
  on_path w (inl code) next = (returns code, w)
  on_path w (inr path) next = next path
