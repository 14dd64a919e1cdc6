-- ===== src/Tests.antt =====
-- Runs of the models at concrete inputs.
mod Panic
mod Daemon
mod Counter
mod Buffer
mod Records
mod Clients
mod Heartbeat
mod Rei
mod Tools
mod Server
mod Contract
mod Dazai
mod Startup
mod Whole
mod Belief
mod Races
mod Pidfile
mod Journal
