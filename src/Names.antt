-- ===== src/Names.antt =====
-- What an address or a name belongs to: the country of an IP address, the registrable domain of a DNS
-- name and the vendor of a MAC address, each from a bundled catalog.
pub mod IpRegistry
pub mod DomainNames
pub mod MacVendor
pub mod Examples
