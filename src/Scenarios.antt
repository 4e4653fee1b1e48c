-- ===== src/Scenarios.antt =====
-- Runs of the modelled code on concrete inputs.
mod Frames
mod Leases
mod Samples
mod Policy
mod Records
mod Agents
mod Recoveries
mod Overrides
mod Kernel
mod Requests
mod Configs
mod Controls
mod Identities
mod Stores
mod Runs
mod Transports
mod Files
