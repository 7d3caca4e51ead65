-- ===== src/Kernel/Syscall/Dispatch.antt =====
-- The dispatch of kernel/src/syscalls/mod.rs. `rest` stands for the handlers of mmap, poll_input, exec
-- and fork, which are not modelled here.
use flutter_os.Prelude.{ℕ, ◌%◌, ◌^◌, Bool, none, some, List, if◌then◌else◌}
use flutter_os.Prelude.Int.{signed32}
use flutter_os.Fs.Result.{FileOps}
use flutter_os.Kernel.Perm.{Resource, check_permission}
use flutter_os.Kernel.Scheduler.{Busy}
use flutter_os.Kernel.Syscall.Number.{
  SyscallNum, sc_open, sc_read, sc_write, sc_mmap, sc_nanosleep, sc_clock_gettime,
  sc_get_framebuffer_info, sc_fb_commit, sc_poll_input, sc_kill, sc_exit, sc_exec, sc_getpid,
  sc_close, sc_mkdir, sc_unlink, sc_stat, sc_chdir, sc_getcwd, sc_fork, sc_waitpid, sc_getppid,
  sc_getdents, sc_getprocs, from_u64, perm_resource,
}
use flutter_os.Kernel.Syscall.World.{World, Reply, returns, eperm, enosys, table_of}
use flutter_os.Kernel.Syscall.Files.{sys_open, sys_read, sys_write, sys_close}
use flutter_os.Kernel.Syscall.Names.{
  sys_mkdir, sys_unlink, sys_stat, sys_chdir, sys_getcwd, sys_getdents,
}
use flutter_os.Kernel.Syscall.Processes.{
  sys_getpid, sys_getppid, sys_kill, sys_exit, sys_waitpid, sys_getprocs, sys_nanosleep,
  sys_clock_gettime,
}
use flutter_os.Kernel.Syscall.Screen.{sys_get_framebuffer_info, sys_fb_commit}

-- The arguments in registers.
pub record Args : Type 0 where
  pub arg0 : ℕ
  pub arg1 : ℕ
  pub arg2 : ℕ
  pub arg3 : ℕ
  pub arg4 : ℕ

module _ {F : Type 0} where
  unfoldable pub check_perm : World F → Resource → Bool
  check_perm w r = check_permission (table_of w) (table_of w).current_pid r

  module _ (is_utf8 : List ℕ → Bool) (o : FileOps F) (b : Busy)
      (rest : SyscallNum → World F → Args → Reply × World F) where
    unfoldable pub run : SyscallNum → World F → Args → Reply × World F
    run sc_open w a = sys_open is_utf8 o w a.arg0 (a.arg1 % 2 ^ 32)
    run sc_read w a = sys_read is_utf8 o b w (signed32 (a.arg0 % 2 ^ 32)) a.arg1 a.arg2
    run sc_write w a = sys_write is_utf8 o w (signed32 (a.arg0 % 2 ^ 32)) a.arg1 a.arg2
    run sc_mmap w a = rest sc_mmap w a
    run sc_nanosleep w a = sys_nanosleep w a.arg0
    run sc_clock_gettime w a = sys_clock_gettime w a.arg0 a.arg1
    run sc_get_framebuffer_info w a = sys_get_framebuffer_info w a.arg0
    run sc_fb_commit w a = sys_fb_commit w a.arg0 a.arg1 a.arg2 a.arg3 a.arg4
    run sc_poll_input w a = rest sc_poll_input w a
    run sc_kill w a = sys_kill w (a.arg0 % 2 ^ 32) (a.arg1 % 256)
    run sc_exit w a = sys_exit b w (signed32 (a.arg0 % 2 ^ 32))
    run sc_exec w a = rest sc_exec w a
    run sc_getpid w a = sys_getpid w
    run sc_close w a = sys_close w (signed32 (a.arg0 % 2 ^ 32))
    run sc_mkdir w a = sys_mkdir is_utf8 o w a.arg0
    run sc_unlink w a = sys_unlink is_utf8 o w a.arg0
    run sc_stat w a = sys_stat is_utf8 o w a.arg0 a.arg1
    run sc_chdir w a = sys_chdir is_utf8 o w a.arg0
    run sc_getcwd w a = sys_getcwd w a.arg0 a.arg1
    run sc_fork w a = rest sc_fork w a
    run sc_waitpid w a = sys_waitpid b w a.arg0 a.arg1
    run sc_getppid w a = sys_getppid w
    run sc_getdents w a = sys_getdents is_utf8 o w a.arg0 a.arg1 a.arg2
    run sc_getprocs w a = sys_getprocs w a.arg0 a.arg1

    -- The permission is checked before the call runs.
    unfoldable pub dispatch : World F → ℕ → Args → Reply × World F
    dispatch w num a = elim (from_u64 num) [
      | none ↦ (returns enosys, w)
      | some s ↦ elim (perm_resource s) [
        | none ↦ run s w a
        | some r ↦ if check_perm w r then run s w a else (returns eperm, w)
      ]
    ]
