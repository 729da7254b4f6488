-- ===== src/Kernel.antt =====
-- The kernel of the runtime: 02_Reference_Implementations/FDOS_Runtime/src/kernel.
pub mod Result
pub mod Exec
pub mod Text
pub mod Validation
pub mod Json
pub mod JsMap
pub mod EventLog
pub mod Store
