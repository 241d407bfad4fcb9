-- ===== src/Outbox.antt =====
-- The durable outbox (jobhound/delivery_outbox.py): its tables, its methods and what they keep.
pub mod Rows
pub mod Monad
pub mod Queries
pub mod Identity
pub mod Revise
pub mod Enqueue
pub mod Leases
pub mod Settle
pub mod Adoption
pub mod Dispatch
pub mod Triples
pub mod Keeps
pub mod Events
pub mod Intents
pub mod Snapshots
pub mod Subjects
pub mod Soundness
pub mod History
mod Examples
