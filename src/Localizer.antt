-- ===== src/Localizer.antt =====
-- python/src/isabelle_repair/localization/repl.py: the localizer that replays the theory from its
-- anchor and makes a task of the first command that fails.
mod Fields
mod Anchor
mod Scan
unfoldable pub use Fields.*
unfoldable pub use Anchor.*
unfoldable pub use Scan.*
pub mod Laws
pub mod Tasks
