-- ===== src/Match.antt =====
-- app/objects/match.py and the packet handlers of app/api/domains/cho.py that act inside a match.
pub mod Types
pub mod Seats
pub mod Room
pub mod Settings
pub mod Commands
pub mod Handlers
