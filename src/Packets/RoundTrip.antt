-- ===== src/Packets/RoundTrip.antt =====
-- The `write_…` functions of app/packets.py against its `read_…` methods.
pub mod Rules
pub mod Scalars
pub mod Strings
pub mod Messages
pub mod Slots
pub mod Matches
pub mod Seeds
