-- ===== src/Internal.antt =====
-- services/router-service/src/common/internal.py: signed calls between the services.
pub mod Signatures
pub mod Requests
mod Tests
