-- ===== src/Examples.antt =====
-- The theorems of the library at concrete trees, signatures, tables and runs.
mod Trees
mod Signatures
mod Scores
mod Tables
mod Settlements
mod Requests
mod Responses
mod Routes
