-- ===== src/Handler.antt =====
-- The RPC handlers of internal/access-controller.go: what each does with a request, from the checks
-- of its fields on.
pub mod CheckRpc
pub mod Fleet
pub mod WriteRpc
pub mod ConfigRpc
pub mod ListRpc
pub mod ExpandRpc
