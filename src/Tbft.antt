-- ===== src/Tbft.antt =====
-- The TBFT consensus component, consensus-tbft-master/.
pub mod Validators
pub mod Vote
pub mod VoteSet
pub mod Rounds
pub mod State
pub mod Caches
pub mod Certificate
pub mod Timer
pub mod Engine
mod Tests
