-- ===== src/Marketplace.antt =====
-- marketplace/programs/marketplace/src/lib.rs, the on-chain program.
pub mod Arithmetic
pub mod Usage
pub mod Accounts
pub mod Program
pub mod Instructions
pub mod Tests
