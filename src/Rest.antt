-- ===== src/Rest.antt =====
-- src/adapters/rest_api/: the REST adapter. So far its codec of values, json.rs.
pub mod Json
pub mod Value
pub mod RoundTrip
pub mod Ranges
