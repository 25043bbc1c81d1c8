-- ===== src/Tests.antt =====
-- Runs of the theorems at concrete inputs.
mod Samples
mod WalWrites
mod Requests
mod Pools
mod WalReplays
mod Messages
mod Configs
mod Dispatches
mod WalLogs
mod Limits
mod Setups
mod Routes
mod Deliveries
mod Reloads
mod Logs
