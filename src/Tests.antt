-- ===== src/Tests.antt =====
-- Runs of the model on concrete inputs, among them the cases that the results are applied to.
mod Plans
mod Waits
mod Requests
mod Repositories
mod Rows
mod Pairs
mod Pulls
mod Cycles
mod Syncs
mod Inventories
