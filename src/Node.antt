-- ===== src/Node.antt =====
-- internal/node: the manager of a node's role.
pub mod Manager
pub mod Poll
pub mod Promote
pub mod Twice
pub mod Demote
pub mod Watch
pub mod Again
