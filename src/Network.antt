-- ===== src/Network.antt =====
-- internal/boxlet/server/network.go: the addresses of the network slots, and the network spec of a
-- sandbox. Go's net package is the parameter `NetLib`; an IPv4 address is its 32-bit number.
pub mod Net
pub mod Blocks
pub mod Addresses
pub mod Slots
pub mod Spec
