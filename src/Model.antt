-- ===== src/Model.antt =====
-- The data of python/src/isabelle_repair/model: the kinds of types.py and its records. A dict with a
-- fixed set of keys is a record with a field for each key that the code reads or writes, `none` for
-- a key that is absent.
mod Kinds
mod Tasks
mod Reviews
mod Records
unfoldable pub use Kinds.*
unfoldable pub use Tasks.*
unfoldable pub use Reviews.*
unfoldable pub use Records.*
