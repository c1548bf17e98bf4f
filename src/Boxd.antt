-- ===== src/Boxd.antt =====
-- The agent inside a sandbox, boxd: internal/boxd/server/process.go, and the routes of server.go.
pub mod Wire
pub mod Base64
pub mod Messages
pub mod Body
pub mod Hub
pub mod Processes
pub mod Handlers
pub mod Stream
pub mod Mux
