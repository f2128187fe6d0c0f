-- ===== src/Authz.antt =====
-- authz/: what the gate in front of a send demands of a grant, a state head and a decision.
pub mod Reasons
pub mod Artifact
pub mod Grant
pub mod State
pub mod ControlPlane
pub mod CloudService
pub mod Service
pub mod Policy
pub mod Gate
pub mod DispatchRecord
pub mod Orchestrator
