-- ===== src/Gateway.antt =====
-- gateway/: the assembly around the cores.
pub mod Egress
pub mod GmailSender
pub mod OauthListener
pub mod Persistence
pub mod ProposalService
pub mod ProposalApi
pub mod SealedToken
pub mod SendPath
pub mod Supervisor
pub mod TokenRefresh
pub mod TokenRevoke
pub mod TokenStore
