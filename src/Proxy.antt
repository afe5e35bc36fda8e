-- ===== src/Proxy.antt =====
-- internal/proxy: the pool of VPN proxies, its bans, its dispatch and its self-healing.
pub mod Types
pub mod Bans
pub mod Pool
pub mod Index
pub mod Acquire
pub mod Capacity
pub mod Health
pub mod Manager
pub mod Create
pub mod External
pub mod Composite
pub mod Socks5
pub mod Refresh
pub mod Wireguard
pub mod Docker
pub mod Examples
mod HealthExamples
mod ManagerExamples
mod DockerExamples
