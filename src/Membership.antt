-- ===== src/Membership.antt =====
-- executor/src/network/membership: which nodes there are.
pub mod NodeCollection
pub mod Status
pub mod Update
