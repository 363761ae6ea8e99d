-- ===== src/Temporal/Exchange.antt =====
-- A request of `IpcClient.infer` in flashrt_temporal/temporal_ros_node.py as `read_request` of
-- flashrt_temporal/flashrt_ipc_worker.py reads it.
pub mod Pieces
pub mod Accepted
