-- ===== src/Redis.antt =====
-- redis/: the cluster client that the proxy carries, a fork of a Go driver with one `On…` handler
-- for each command and one `Reply` for each kind of command.
pub mod Format
pub mod Command
pub mod Request
pub mod Handlers
pub mod Reply
pub mod Slots
pub mod Options
pub mod Pipeline
pub mod ConnList
pub mod ConnPool
pub mod SinglePool
pub mod Node
pub mod Topology
pub mod Cluster
