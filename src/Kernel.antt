-- ===== src/Kernel.antt =====
-- The kernel: process management (kernel/src/process.rs, signal.rs, oom.rs, perm.rs, scheduler.rs,
-- syscalls/fd.rs), physical frames (memory/frame_allocator.rs) and program images (exec.rs,
-- aero_format.rs).
mod Tests
pub mod Fd
pub mod Process
pub mod Signal
pub mod Oom
pub mod Perm
pub mod Scheduler
pub mod Bytes
pub mod Mem
pub mod Ata
pub mod Aero
pub mod Elf
pub mod Frames
pub mod Paging
pub mod Syscall
