-- ===== src/Examples.antt =====
-- Runs of the theorems at small orders, books, batches and committees.
mod Setting
mod Orders
mod Books
mod Refusals
mod Rounds
mod Committee
mod Settlement
mod Attestations
mod Settled
