-- ===== src/Service/Briefing.antt =====
-- internal/service/briefing.go: the briefing of a profile. Values is the reading of loosely typed
-- data, Changes the comparison with the snapshot before.
pub mod Values
pub mod Volatile
pub mod Changes
