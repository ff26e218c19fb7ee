-- ===== src/Tests.antt =====
-- Runs of the modelled code on concrete inputs, and the theorems at concrete data.
mod Data
mod Apps
mod Machines
mod Commands
mod Configs
mod Stores
mod Created
mod Files
mod Linked
mod Scripts
mod Loading
