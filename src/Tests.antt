-- ===== src/Tests.antt =====
-- Concrete inputs, and the theorems of the other files at them.
mod Samples
mod SendFsm
mod SendPath
mod Store
mod TokenStore
mod Keystore
mod Authz
mod Canonicalizer
mod Orchestrator
mod Persistence
mod ProposalApi
mod GmailSender
mod SealedToken
mod TokenRefresh
mod Oauth
mod ControlPlane
mod Supervisor
