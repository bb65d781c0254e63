-- ===== src/Examples.antt =====
-- The theorems at concrete inputs: a simulated world with three instants, a seed of one location, and
-- the stores that small runs lead to.
mod Worlds
mod Simulation
mod Commands
mod Tokens
mod Lists
mod Requests
mod Receivers
mod Suites
mod Evaluators
