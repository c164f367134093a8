-- ===== src/Http.antt =====
-- The HTTP side of the gateway: core/errors.py, api/routes.py and the queries behind the routes.
pub mod Errors
pub mod Usage
pub mod Dashboard
pub mod Routes
