-- ===== src/Rmb.antt =====
-- src/librmb/tools/rmb: the administration tool.
pub mod Undo
pub mod Sort
pub mod Tests
