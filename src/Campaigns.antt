-- ===== src/Campaigns.antt =====
-- app/features/campaigns: who may do what in a campaign, the campaign itself and its roster.
pub mod Access
pub mod Participation
pub mod Rows
pub mod Crud
pub mod Characters
pub mod Effect
pub mod Counts
pub mod Steps
pub mod Soundness
pub mod Roster
pub mod Ended
pub mod Frees
pub mod Standing
mod Tests
