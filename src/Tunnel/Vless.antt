-- ===== src/Tunnel/Vless.antt =====
-- daemon/internal/tunnel/vless.go: the VLESS backend, which runs sing-box and leads marked traffic to it.
pub mod Routing
pub mod Conf
pub mod Manager
mod Tests
