-- ===== src/Kernel/Syscall/Number.antt =====
-- The numbers of the system calls, and the permissions that they need.
use flutter_os.Prelude.{ℕ, zero, suc, Option, none, some, List, [], ◌∷◌}
use flutter_os.Kernel.Perm.{Resource, framebuffer, input_events, process_control, exec}

pub data SyscallNum : Type 0 where
  sc_open sc_read sc_write sc_mmap sc_nanosleep sc_clock_gettime sc_get_framebuffer_info :
      SyscallNum
  sc_fb_commit sc_poll_input sc_kill sc_exit sc_exec sc_getpid sc_close sc_mkdir sc_unlink :
      SyscallNum
  sc_stat sc_chdir sc_getcwd sc_fork sc_waitpid sc_getppid sc_getdents sc_getprocs : SyscallNum

-- The calls in the order of their numbers, from 1 on.
abbrev pub numbered : List SyscallNum
numbered =
    sc_open ∷ sc_read ∷ sc_write ∷ sc_mmap ∷ sc_nanosleep ∷ sc_clock_gettime
    ∷ sc_get_framebuffer_info ∷ sc_fb_commit ∷ sc_poll_input ∷ sc_kill ∷ sc_exit ∷ sc_exec
    ∷ sc_getpid ∷ sc_close ∷ sc_mkdir ∷ sc_unlink ∷ sc_stat ∷ sc_chdir ∷ sc_getcwd ∷ sc_fork
    ∷ sc_waitpid ∷ sc_getppid ∷ sc_getdents ∷ sc_getprocs ∷ []

abbrev pub nth : List SyscallNum → ℕ → Option SyscallNum
nth [] n = none
nth (s ∷ ss) zero = some s
nth (s ∷ ss) (suc n) = nth ss n

unfoldable pub from_u64 : ℕ → Option SyscallNum
from_u64 zero = none
from_u64 (suc n) = nth numbered n

unfoldable pub perm_resource : SyscallNum → Option Resource
perm_resource sc_get_framebuffer_info = some framebuffer
perm_resource sc_fb_commit = some framebuffer
perm_resource sc_poll_input = some input_events
perm_resource sc_kill = some process_control
perm_resource sc_exec = some exec
perm_resource _ = none
