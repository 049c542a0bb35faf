-- ===== src/Orchestrator.antt =====
-- services/sandbox-orchestrator: the gRPC server that boots and removes microVMs.
pub mod Address
pub mod TapName
pub mod Network
pub mod Provisioner
pub mod Server
pub mod Disk
pub mod Vmm
pub mod Host
pub mod Prober
pub mod LatencyRecord
pub mod Consumer
pub mod Hardening
