-- ===== src/Kernel/Perm.antt =====
-- kernel/src/perm.rs: privilege levels and the permission check of the syscalls.
pub mod Laws
use flutter_os.Prelude.{ℕ, Bool, true, false, Option, none, some, ◌==◌, if◌then◌else◌}
use flutter_os.Kernel.Process.{ProcessTable, get, is_free}

pub data PrivilegeLevel : Type 0 where
  kernel system user : PrivilegeLevel

pub data Resource : Type 0 where
  framebuffer input_events file_read file_write process_control exec : Resource

unfoldable pub get_privilege_level : ProcessTable → ℕ → PrivilegeLevel
get_privilege_level t pid = if pid == 0 then kernel else (elim (get t pid) [
  | none ↦ kernel
  | some p ↦ if is_free p.state then kernel else (if p.parent_pid == 0 then system else user)
])

-- The table of `check_permission`; its last arm denies.
unfoldable pub allowed : PrivilegeLevel → Resource → Bool
allowed system r = true
allowed user framebuffer = false
allowed user input_events = false
allowed user file_read = true
allowed user file_write = true
allowed user exec = true
allowed user process_control = false
allowed kernel r = false

unfoldable pub check_permission : ProcessTable → ℕ → Resource → Bool
check_permission t pid r = if pid == 0 then true else allowed (get_privilege_level t pid) r
