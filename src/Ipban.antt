-- ===== src/Ipban.antt =====
-- The agent's reactive banning (internal/agent/ipban): who may be banned, and for how long.
pub mod Guard
pub mod Tracker
pub mod Manager
