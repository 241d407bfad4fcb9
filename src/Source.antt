-- ===== src/Source.antt =====
-- Reviewed sources: the plan (jobhound/source_policy.py) and the budget that is drawn from it
-- (jobhound/source_budget.py, jobhound/bounded_transport.py).
pub mod Plan
pub mod Admission
pub mod Rows
pub mod Work
pub mod Requests
pub mod Cooling
pub mod Ceilings
pub mod Within
pub mod Bounded
pub mod Reached
pub mod Metering
pub mod Spending
pub mod Checks
pub mod Streak
mod Examples
