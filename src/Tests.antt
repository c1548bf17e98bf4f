-- ===== src/Tests.antt =====
-- Concrete parameters, and runs of the model on them.
mod Json
mod Net
mod Stores
mod Networks
mod Configs
mod Boxlets
mod Agents
mod Proxies
mod Shims
mod Schemas
