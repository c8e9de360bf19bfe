-- ===== src/Clients.antt =====
-- The three clients of unifi_runtime/unifi, over `json_request`.
pub mod Network
pub mod Ucore
pub mod Ulp
