-- ===== src/Cmd.antt =====
-- The command handlers: src/filesystem/cmd_select.c, cmd_binary.c and cmd_create.c.
pub mod Answers
pub mod Changes
pub mod Writes
pub mod Requests
pub mod RoundTrip
pub mod Rewritten
pub mod Selected
mod Status
mod Select
mod Binary
mod Template
mod Create
unfoldable pub use Status.*
unfoldable pub use Select.*
unfoldable pub use Binary.*
unfoldable pub use Template.*
unfoldable pub use Create.*
