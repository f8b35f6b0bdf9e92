-- ===== src/Mapping.antt =====
-- The mapping module (src/app/modules/mapping): canonical objects are mapped to SD-WAN objects.
pub mod Entities
pub mod Candidates
pub mod Zones
pub mod Canonical
pub mod Normalizer
pub mod Icmp
pub mod Services
pub mod Addresses
pub mod Results
