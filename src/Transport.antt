-- ===== src/Transport.antt =====
-- `BoundedTransport` and `LimitedStream` of jobhound/bounded_transport.py: one request under the gates
-- of a run, and the reading of its response.
pub mod Stream
pub mod Exchange
pub mod Bytes
pub mod Gates
mod Examples
