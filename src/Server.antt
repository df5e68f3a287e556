-- ===== src/Server.antt =====
-- The requests to the server (src/server_io.cpp): what the judge tells it and in which order.
pub mod Requests
pub mod Stamps
pub mod Rising
pub mod Coherent
pub mod Release
pub mod Run
pub mod Results
pub mod Delivery
pub mod Report
pub mod Positions
pub mod Base64
pub mod Frames
pub mod Testdata
pub mod Deal
mod Tests
