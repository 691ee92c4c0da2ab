-- ===== src/Tests.antt =====
-- The theorems at concrete inputs.
mod Items
mod Jobs
mod Loops
mod Names
mod Runs
mod Texts
mod Threads
