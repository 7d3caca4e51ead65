-- ===== src/Wm.antt =====
-- The window manager: wm/src/window.rs, cursor.rs and input_router.rs.
mod Tests
pub mod Window
pub mod Cursor
pub mod Router
pub mod Compositor
pub mod Surface
pub mod Loop
