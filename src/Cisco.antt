-- ===== src/Cisco.antt =====
-- The parser of Cisco ASA configurations (src/app/modules/imports/cisco_asa).
pub mod Config
pub mod Tokens
pub mod Operands
pub mod Endpoints
pub mod Tree
pub mod Index
pub mod Zones
pub mod Usage
pub mod Acls
pub mod Processing
pub mod Objects
pub mod Addresses
pub mod ServiceCatalog
pub mod ProtocolGroups
