-- ===== src/Envelopes.antt =====
-- Digests as envelopes (jobhound/delivery_transport.py): cards of the outbox are frozen into an
-- envelope of one or more parts, which are sent one at a time.
pub mod Reads
pub mod Writes
pub mod Quiet
pub mod Claims
pub mod Settling
pub mod Summaries
pub mod Drafts
pub mod Reissue
pub mod Keys
pub mod Sends
pub mod Methods
pub mod Settled
pub mod Drafted
pub mod Traces
pub mod Runs
pub mod Plans
pub mod Returned
pub mod Dispatched
pub mod Delivered
pub mod Examples
pub mod Chunks
pub mod Cutting
pub mod Overflow
pub mod Counted
pub mod Listed
