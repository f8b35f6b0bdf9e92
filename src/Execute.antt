-- ===== src/Execute.antt =====
-- The execute module (src/app/modules/execute): rules are compared with the existing policies,
-- gathered into a plan, and the new ones are pushed.
pub mod Rules
pub mod Values
pub mod Names
pub mod Services
pub mod Signature
pub mod Resolver
pub mod Coverage
pub mod ExactSignature
pub mod Comparer
pub mod MappingReader
pub mod Plan
pub mod Gateway
pub mod Repository
pub mod Report
pub mod Push
pub mod Prepare
