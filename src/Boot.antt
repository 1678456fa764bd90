-- ===== src/Boot.antt =====
-- src/boot: the boot loader of the SCV1 chip, over two regions of code flash.
pub mod RoundTrip
pub mod Erased
pub mod Download
pub mod Handover
pub mod Safety
pub mod Activate
mod Flash
mod Header
mod Loader
mod Handle
unfoldable pub use Flash.*
unfoldable pub use Header.*
unfoldable pub use Loader.*
unfoldable pub use Handle.*
