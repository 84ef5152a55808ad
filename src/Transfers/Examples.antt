-- ===== src/Transfers/Examples.antt =====
-- The theorems on the matching of transfers at concrete inputs: two legs of one transfer and a payment.
mod Data
mod Decisions
mod Evidence
mod Links
mod Runs
