-- ===== src/Examples.antt =====
-- Concrete values on which the definitions run.
mod Batches
mod Cents
mod Orders
mod Account
mod Identity
mod Sequences
mod Session
mod Lookups
mod Failures
