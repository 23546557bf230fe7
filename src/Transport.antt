-- ===== src/Transport.antt =====
-- coriolis/data_transfer.py: the messages that carry the data of disks.
pub mod Bytes
pub mod Messages
pub mod Receiver
pub mod RoundTrip
pub mod Bounds
mod Cases
