-- ===== src/Tests.antt =====
-- Runs of the definitions on concrete inputs, and the theorems at them.
mod Hosts
mod Delays
mod Replays
mod Rows
mod Requests
mod Derates
mod Parking
mod Documents
mod Data
mod Caches
mod Ledgers
mod Queues
mod Gates
mod Policies
