-- ===== src/Flutter.antt =====
-- The adapter between the kernel and the embedder: flutter_adapter/src.
pub mod Input
mod Tests
