-- ===== src/Examples.antt =====
-- The theorems at concrete inputs, and tests of the definitions.
mod Data
mod Texts
mod Configs
mod Checks
mod Handlers
mod Clusters
mod Threads
mod Expansions
mod Intersections
mod Tables
mod Stores
mod Rows
mod Databases
mod Managers
mod Hashrings
mod Written
