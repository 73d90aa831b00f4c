-- ===== src/Examples.antt =====
-- The theorems at concrete inputs: a wallet, its transactions, a chain and a store in memory.
mod Setup
mod Nonces
mod Jobs
mod Routes
mod Tables
mod Indexers
mod Workers
mod Subscribed
mod Marked
mod Queried
mod Connected
mod Served
