-- ===== src/Fs.antt =====
-- The file systems: kernel/src/fs, with the layer that mounts them.
mod Tests
pub mod Result
pub mod Tmpfs
pub mod Path
pub mod Vfs
pub mod Fat
pub mod Dev
pub mod Initramfs
