-- ===== src/Repository.antt =====
-- pkg/restserver: the repositories that restic writes through the server's append-only REST interface.
pub mod Paths
pub mod Store
pub mod Usage
pub mod Requests
pub mod Injectivity
pub mod Locations
pub mod Appending
pub mod Uploads
pub mod Roundtrip
pub mod Listing
pub mod Targets
pub mod Resolving
pub mod Access
pub mod Holders
pub mod Authorization
pub mod Quotas
