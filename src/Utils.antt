-- ===== src/Utils.antt =====
-- clientlibrary/utils: random names.
pub mod Random
