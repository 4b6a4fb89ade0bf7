-- ===== src/World.antt =====
-- What the server runs on, and the state that its components share.
--
-- The database engine (RocksDB, of which server/lib holds the headers only) and the operating
-- system's files and shell are parameters: a `Platform` gives their operations, and names what the
-- server relies on as laws. A call of the server is an action of `M`: it returns, returns `false`,
-- or is cut off, and what was written before stays written.
mod Interfaces
mod Monad
pub mod Inversion
pub mod Reads
pub mod Returning
pub mod Silent
unfoldable pub use Interfaces.*
unfoldable pub use Monad.*
