-- ===== src/Storage.antt =====
-- internal/storage: the SQLite repositories. A table is the list of its rows, and an SQL statement
-- the function on tables that it states.
pub mod Window
pub mod Retention
pub mod Timetable
mod Tests
