-- ===== src/Outcomes.antt =====
-- Reviewed outcome facts (jobhound/v41/outcomes.py): which events are supported, how they are imported
-- into a journal, and what a journal says about one attempt.
pub mod Events
pub mod Kinds
pub mod Supported
pub mod Authority
pub mod Grouped
pub mod Projections
pub mod Queries
pub mod Standing
pub mod Agreement
pub mod Gathered
pub mod Disposed
pub mod Intakes
pub mod Cascades
pub mod Imports
pub mod Counts
pub mod Accounted
pub mod Examples
