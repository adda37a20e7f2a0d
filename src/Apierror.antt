-- ===== src/Apierror.antt =====
-- Package v2/apierror.
pub mod Codes
pub mod Details
pub mod Types
pub mod Parse
pub mod Printing
