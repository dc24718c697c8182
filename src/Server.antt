-- ===== src/Server.antt =====
-- `ControlPlaneServer` of src/bin/control_plane_server.rs.
pub mod Predict
pub mod Json
pub mod Request
pub mod Index
pub mod Engines
pub mod Command
pub mod Calibration
pub mod Answers
pub mod Branches
pub mod Process
pub mod Pages
pub mod Http
pub mod Sockets
mod Samples
mod Tests
