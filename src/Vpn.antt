-- ===== src/Vpn.antt =====
-- internal/protonvpn: the choice of a VPN server, browser cookies, sessions and certificates.
pub mod Servers
pub mod Cookies
pub mod Sessions
pub mod Examples
