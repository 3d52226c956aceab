-- ===== src/Web.antt =====
-- application/src/web/: the handlers of the REST API.
pub mod Admin
pub mod Status
pub mod Update
pub mod Sensors
pub mod Routes
pub mod Requests
pub mod Gpio
