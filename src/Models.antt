-- ===== src/Models.antt =====
-- The database of the backend: enumerations, rows and tables (backend/app/models). An id is a
-- number, a time is a number of seconds since the epoch, and a table is the list of its rows.
mod Enums
mod Actions
mod Rows
mod Tables
unfoldable pub use Enums.*
pub use Actions.*
pub use Rows.*
pub use Tables.*
