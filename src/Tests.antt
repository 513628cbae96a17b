-- ===== src/Tests.antt =====
-- Runs of the model at concrete inputs.
mod Bans
mod Schedules
mod Policies
mod Subscribers
mod Agents
mod Alerts
mod Sending
mod Versions
mod Repositories
mod Ingest
mod Fleets
mod Logins
