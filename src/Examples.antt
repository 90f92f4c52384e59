-- ===== src/Examples.antt =====
-- Concrete runs: the theorems applied to small inputs that meet their hypotheses.
mod Inputs
mod Agents
mod Queues
mod Audits
mod Imports
mod Accounts
mod Erasures
mod Programs
