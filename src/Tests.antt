-- ===== src/Tests.antt =====
-- Runs of the modelled code on concrete values, and the theorems applied to them.
mod Numbers
mod Positions
mod Sims
mod Risks
mod Reconciles
mod Executions
mod Directionals
mod Stores
mod Engines
mod Modes
