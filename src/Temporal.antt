-- ===== src/Temporal.antt =====
-- flashrt_temporal/: the worker that reads windows of frames from a socket, the client that sends them
-- and the ROS node that collects them.
pub mod Wire
pub mod Receive
pub mod Stream
pub mod Request
pub mod Client
pub mod Exchange
pub mod Response
pub mod Window
pub mod Video
pub mod Serve
