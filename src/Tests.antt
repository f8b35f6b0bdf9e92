-- ===== src/Tests.antt =====
-- Runs of the model on small inputs.
mod Data
mod Catalog
mod Mapping
mod Coverage
mod Plans
mod Caches
mod Objects
mod Cisco
