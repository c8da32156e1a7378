-- ===== src/Tests.antt =====
-- Runs of the models on small inputs, and the theorems at such inputs.
mod Router
mod IpAddr
mod Streams
mod JsonLines
mod Trace
mod Samples
mod Mrt
mod HttpProbe
mod IpQuery
mod Zones
mod Nodes
mod Report
mod Tasks
mod PingStream
mod NodeGroups
mod Displays
mod TraceRead
mod Queries
mod TraceMap
mod PingMap
mod RouteDisplay
mod MapShapes
mod Classify
