-- ===== src/NodeList/Ring.antt =====
-- Rings of links, and how they change when an item joins or leaves (src/list.rs keeps one in each
-- direction).
mod Links
mod Relink
pub use Links.*
pub use Relink.*
