-- ===== src/Store.antt =====
-- src/filesystem/fs_store.c: the physical layer. Its state is the chip and the mirror of the
-- superblock in RAM; the children hold the layout, the superblock, the descriptors and the file data.
mod Layout
mod Super
mod Table
mod Data
pub mod RoundTrip
pub mod Slots
pub mod Persist
pub mod Alloc
pub mod Format
pub mod Sizes
unfoldable pub use Layout.*
unfoldable pub use Super.*
unfoldable pub use Table.*
unfoldable pub use Data.*
