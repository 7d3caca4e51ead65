-- ===== src/Input.antt =====
-- The kernel's input path: interrupts/mod.rs, interrupts/mouse.rs, usb/hid.rs and
-- syscalls/input.rs of kernel/src.
mod Tests
pub mod Event
pub mod Ring
pub mod Mouse
pub mod Hid
pub mod Poll
