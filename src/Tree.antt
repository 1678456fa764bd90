-- ===== src/Tree.antt =====
-- src/filesystem/fs.c: the logical layer, over the descriptors of the physical one. The children hold
-- the searches, the selection, the file data, the control information, and creation and deletion.
pub mod Lookup
pub mod Invariant
pub mod Creation
pub mod Added
pub mod Removed
pub mod Lifetime
pub mod Contents
pub mod Overwritten
pub mod Rooted
pub mod Selection
pub mod Path
pub mod Personal
pub mod Factory
pub mod Start
pub mod Sizes
pub mod Spec
pub mod Blocks
pub mod Refines
pub mod Written
pub mod Changes
pub mod Simulation
mod Find
mod Select
mod Content
mod Fcp
mod Create
mod Init
unfoldable pub use Find.*
unfoldable pub use Select.*
unfoldable pub use Content.*
unfoldable pub use Fcp.*
unfoldable pub use Create.*
unfoldable pub use Init.*
