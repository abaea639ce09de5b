-- ===== src/Examples.antt =====
-- The theorems at concrete inputs, on the data of Fixtures.antt.
mod Access
mod Workspace
mod Answers
mod Login
mod Questions
mod Content
