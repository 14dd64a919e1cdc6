-- ===== src/Kikka.antt =====
-- rs/crates/kikka: the panic policy (src/panic.rs) and the watchdog around it (src/lib.rs).
pub mod Panic
pub mod Daemon
pub mod Control
pub mod EventLoop
pub mod Heartbeat
pub mod Clients
pub mod Binding
