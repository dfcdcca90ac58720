-- ===== src/Tests.antt =====
-- The theorems at concrete data: an in-memory database, one transaction, two migrations.
mod Loops
mod Memory
mod Samples
mod Fetches
mod Sync
mod Saves
mod Runs
mod Pages
mod Accounts
mod Web
mod Solana
mod Views
mod Sending
mod Setup
mod Revert
mod Selected
