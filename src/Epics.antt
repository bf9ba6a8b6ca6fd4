-- ===== src/Epics.antt =====
-- internal/epics: the EPICS discovery protocols.
pub mod Ca
pub mod Pva
