-- ===== src/Tests.antt =====
-- The theorems at concrete inputs, and runs of the definitions.
mod Data
mod Feedbacks
mod Backends
mod Connections
mod Sessions
mod Managers
mod Players
mod Daemons
mod Systems
mod Starts
mod Volumes
mod Clients
