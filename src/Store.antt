-- ===== src/Store.antt =====
-- store/: the persistence seam, the proposals and the audit ledger.
pub mod Backend
pub mod Record
pub mod Proposals
pub mod Ledger
