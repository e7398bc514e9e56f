-- ===== src/Service.antt =====
-- internal/service: the behaviour of the tools.
pub mod Samples
pub mod Freshness
pub mod Journey
pub mod Parking
pub mod Places
pub mod VelovStations
pub mod Departures
pub mod Mobility
pub mod Accessibility
pub mod Facilities
pub mod Waste
pub mod Environment
pub mod Dispatch
pub mod Briefing
mod Tests
