-- ===== src/Client.antt =====
-- python/src/isabelle_repl/client.py: the client of the REPL service. The server's methods, their
-- messages and the exceptions of a failed call are behind `Stub`; the host, the channel and the
-- client's log are not modelled.
pub mod Messages
pub mod Calls
unfoldable pub use Messages.*
unfoldable pub use Calls.*
