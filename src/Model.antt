-- ===== src/Model.antt =====
-- internal/model: the result envelope, place references, floating point and distances, and the
-- domain records that the services use.
pub mod Envelope
pub mod PlaceRef
pub mod Float
pub mod Names
pub mod Records
pub mod Line
pub mod GtfsTime
mod Tests
