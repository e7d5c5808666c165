-- ===== src/Wire.antt =====
-- The readers of protocol bytes in sniff4hound/sniffer.py: DNS names and messages, the server name of a
-- TLS handshake and NetBIOS names.
pub mod Bytes
pub mod DnsName
pub mod DnsMessage
pub mod Sni
pub mod Nbns
pub mod Rounds
pub mod Total
pub mod RoundTrip
pub mod Query
pub mod Examples
