-- ===== src/Domain.antt =====
-- The domain rules of the runtime: 02_Reference_Implementations/FDOS_Runtime/src/domain.
pub mod Catalog
pub mod Intent
pub mod Roles
pub mod Policy
pub mod Agents
pub mod Connectors
pub mod Workflow
pub mod Delivery
