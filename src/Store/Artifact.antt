-- ===== src/Store/Artifact.antt =====
-- internal/storage/store/sqlite/artifact.go: images, templates and snapshots.
-- encoding/json is a parameter, `Json`: `M` is the type of Go's map[string]string.
pub mod Images
pub mod Templates
pub mod Snapshots
