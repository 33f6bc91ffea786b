-- ===== src/Tests.antt =====
-- The theorems at concrete inputs, one file for each group of components.
mod Data
mod Calls
mod Chunks
mod Limits
mod Incidents
mod Known
mod Keys
mod Rendering
mod Runs
mod Stages
mod Secrets
mod Connections
mod Inbound
mod Registered
mod Swept
mod Jobs
