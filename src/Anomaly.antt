-- ===== src/Anomaly.antt =====
-- sniff4hound/anomaly.py: detectors that keep state over many packets.
pub mod Detectors
pub mod Floods
pub mod Cooldown
pub mod Alerts
pub mod Claims
pub mod Engine
pub mod Hits
pub mod Spoof
mod Examples
