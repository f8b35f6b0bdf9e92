-- ===== src/Runtime.antt =====
-- What the modules share at run time (src/app/infrastructure).
pub mod Cache
