-- ===== src/Store.antt =====
-- The database (apps/api/prisma/schema.prisma) and the calls that work on it: the rows, the tables,
-- the whole database as one value, and the monad of the service calls.
mod Rows
mod Outside
mod Rules
mod Attempts
mod Tables
mod Database
mod Monad
pub use Rows.*
pub use Outside.{External}
pub use Database.*
pub use Rules.*
pub use Attempts.*
pub use Monad.*
unfoldable pub use Tables.{find_by, update_by}
unfoldable pub use Monad.{◌>>=◌, retry}
pub use Tables.{
  find_own-found, Keyed, find_own, find_first, update_many, find_first-holds, find_by-key,
  find_by-cons, find_by-update_by,
}
