-- ===== src/Kernel/Syscall.antt =====
-- The system calls: kernel/src/syscalls/mod.rs and syscalls/time.rs.
pub mod Number
pub mod World
pub mod Files
pub mod Names
pub mod Processes
pub mod Screen
pub mod Dispatch
pub mod Memory
pub mod Gate
pub mod Top
pub mod Clock
pub mod Listing
pub mod Cwd
pub mod Wait
pub mod Fds
pub mod Append
