-- ===== src/Kernel/Tests/Calls.antt =====
-- Runs of the system calls.
use flutter_os.Prelude.{
  ℕ, ◌+◌, ◌-◌, ◌≡◌, refl, ◌≢◌, inr, Bool, true, ◌&&◌, none, some, List, [], ◌∷◌, arith, leb, ltb,
  ◌==◌, if◌then◌else◌, length, replicate,
}
use flutter_os.Prelude.Dict
use flutter_os.Prelude.Int.{pos}
use flutter_os.Prelude.Slots
use flutter_os.Fs.Result.{regular, directory, DirEntry}
use flutter_os.Fs.Tmpfs
use flutter_os.Fs.Tmpfs.{Inode, Tmpfs, ops}
use flutter_os.Fs.Tmpfs.Laws.{byte_at}
use flutter_os.Fs.Path
use flutter_os.Fs.Path.{root_path}
use flutter_os.Fs.Vfs
use flutter_os.Fs.Vfs.{Mount, Vfs, mount_at}
use flutter_os.Kernel.Fd
use flutter_os.Kernel.Fd.{FdTable, vfs_file, stream, free}
use flutter_os.Kernel.Process.{Process, running, empty, get}
use flutter_os.Kernel.Perm.{user, get_privilege_level}
use flutter_os.Kernel.Scheduler.{System}
use flutter_os.Kernel.Syscall.Number.{SyscallNum, sc_kill, from_u64}
use flutter_os.Kernel.Syscall.World.{
  World, Reply, returns, eperm, echild, enoent, enosys, read_path, cstring, current_fds, table_of,
}
use flutter_os.Kernel.Syscall.Files.{sys_write}
use flutter_os.Kernel.Syscall.Names.{
  sys_mkdir, sys_unlink, sys_chdir, sys_getcwd, store_entries, enter,
}
use flutter_os.Kernel.Syscall.Processes.{sys_waitpid}
use flutter_os.Kernel.Syscall.Dispatch.{Args, dispatch}
use flutter_os.Kernel.Syscall.Append.{sys_write-file}
use flutter_os.Kernel.Syscall.Gate.{dispatch-denied}
use flutter_os.Kernel.Syscall.Wait.{waitpid-reaps}
use flutter_os.Kernel.Syscall.Cwd.{getcwd-chdir}
use flutter_os.Kernel.Syscall.Listing.{IsListing, store_entries_lem}
use flutter_os.Kernel.Syscall.Top.{mkdir-unlink-top}
use flutter_os.Kernel.Tests.{dead, table, table-IsValid, system, quiet}

abbrev any_text : List ℕ → Bool
any_text bytes = true

-- A directory with the file "a", mounted at "/".
abbrev file_inode : Inode
file_inode = record { file_type = regular; content = 104 ∷ 105 ∷ []; children = [] }

abbrev top_inode : Inode
top_inode = record { file_type = directory; content = []; children = ((97 ∷ []), 2) ∷ [] }

abbrev tree : Tmpfs
tree = record { inodes = (1, top_inode) ∷ (2, file_inode) ∷ []; next_inode = 3 }

abbrev root_mount : Mount Tmpfs
root_mount = record { mount_point = root_path; root_inode = 1; fs = tree }

abbrev fds : FdTable
fds = record { entries = stream ∷ stream ∷ stream ∷ vfs_file 0 2 1 ∷ replicate 124 free }

-- The kernel itself runs, memory holds "/b" at 10, and "/" elsewhere.
abbrev memory : ℕ → ℕ
memory a = if a == 10 then 47 else (if a == 11 then 98 else (if a == 20 then 47 else 0))

abbrev idle_system : System
idle_system = record system { table = record table { current_pid = 0 } }

abbrev world : World Tmpfs
world = record {
  system = idle_system;
  global_fds = fds;
  vfs = record { mounts = root_mount ∷ [] };
  cwd = [];
  memory = memory;
  serial_in = [];
  serial_out = [];
  screen_out = [];
  ticks = 0;
  screen = none;
}

-- The same with the shell running.
abbrev shell_world : World Tmpfs
shell_world = record world { system = system }

open-fd : Fd.get (current_fds world) 3 ≡ some (vfs_file 0 2 1)
unfolding Fd.get current_fds
open-fd = refl

full-fds : length (current_fds world).entries ≡ 128
unfolding current_fds
full-fds = refl

get-file : Tmpfs.get tree 2 ≡ some file_inode
unfolding Tmpfs.get Dict.lookup
get-file = refl

sys_write-file_example :
    let (r, w') = sys_write any_text ops world (pos 3) 10 2 in
    (r ≡ returns (pos 2))
    × (Fd.get (current_fds w') 3 ≡ some (vfs_file 0 2 (1 + 2)))
    × ((m' : Mount Tmpfs) × (mount_at 0 w'.vfs.mounts ≡ some m')
        × ((j : ℕ)
            → byte_at m'.fs 2 j ≡ (
                if leb 1 j && ltb j (1 + 2)
                then world.memory (10 + (j - 1))
                else byte_at tree 2 j)))
sys_write-file_example =
    sys_write-file any_text world 3 10 2 0 2 1 root_mount file_inode (omega arith) (omega arith)
      full-fds open-fd refl get-file refl (omega arith)

read-b : read_path any_text memory 10 ≡ inr (47 ∷ (98 ∷ []))
unfolding read_path cstring
read-b = refl

mkdir-unlink-top_example :
    (sys_mkdir any_text ops world 10 ≡ (returns enoent, world))
    × (sys_unlink any_text ops world 10 ≡ (returns enoent, world))
mkdir-unlink-top_example = mkdir-unlink-top any_text ops world 10 (98 ∷ []) refl read-b refl

read-top : read_path any_text memory 20 ≡ inr root_path
unfolding read_path cstring
read-top = refl

entered : (sys_chdir any_text ops world 20).0 ≡ returns (pos 0)
unfolding sys_chdir enter read_path cstring Vfs.resolve Vfs.find_mount Path.matches Path.relative_to
    Tmpfs.file_type Tmpfs.get Dict.lookup
entered = refl

getcwd-chdir_example :
    let (reply, w') = sys_getcwd (sys_chdir any_text ops world 20).1 64 8 in
    (reply ≡ returns (pos 0)) × (read_path any_text w'.memory 64 ≡ inr root_path)
getcwd-chdir_example =
    getcwd-chdir any_text ops world 20 64 8 root_path read-top entered (omega arith) (omega arith)

abbrev entry : DirEntry
entry = record { name = 97 ∷ []; inode_id = 2; file_type = regular }

store_entries_lem_example :
    IsListing 1000 100 0
      (entry ∷ entry ∷ [])
      memory
      (store_entries 1000 100 0 (entry ∷ entry ∷ []) memory)
store_entries_lem_example = store_entries_lem 1000 100 0 (entry ∷ entry ∷ []) memory (omega arith)

get-dead : get table 4 ≡ some dead
unfolding get Slots.find
get-dead = refl

waitpid-reaps_example :
    let (r, w') = sys_waitpid quiet shell_world 4 0 in
    (r ≡ returns (pos 4))
    × (w'.memory ≡ memory)
    × ((j : ℕ) → j ≢ 0 → get (table_of w') j ≡ (if j == 4 then none else get table j))
    × (sys_waitpid quiet w' 4 0 ≡ (returns echild, w'))
waitpid-reaps_example =
    waitpid-reaps quiet shell_world 4 0 dead table-IsValid (omega arith) (omega arith) get-dead refl
      refl

-- A child of the shell runs.
abbrev child : Process
child = record empty { pid = 3; parent_pid = 1; state = running }

abbrev child_world : World Tmpfs
child_world = record world {
  system = record system {
    table = record table { processes = child ∷ replicate 31 empty; current_pid = 3 };
  };
}

child-user : get_privilege_level (table_of child_world) 3 ≡ user
unfolding get_privilege_level get Slots.find
child-user = refl

abbrev kill_args : Args
kill_args = record { arg0 = 1; arg1 = 9; arg2 = 0; arg3 = 0; arg4 = 0 }

abbrev no_rest : SyscallNum → World Tmpfs → Args → Reply × World Tmpfs
no_rest s w a = (returns enosys, w)

known-kill : from_u64 10 ≡ some sc_kill
unfolding from_u64
known-kill = refl

dispatch-denied_example :
    dispatch any_text ops quiet no_rest child_world 10 kill_args ≡ (returns eperm, child_world)
dispatch-denied_example =
    dispatch-denied any_text ops quiet no_rest child_world 10 kill_args sc_kill (omega arith)
      child-user known-kill (inr (inr (inr refl)))
