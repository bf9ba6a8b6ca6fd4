-- ===== src/Diagnose.antt =====
-- internal/diagnose: what the table says of addresses, and what follows for the user.
pub mod Candidate
pub mod Report
pub mod Grounded
pub mod Rules
