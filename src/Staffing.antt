-- ===== src/Staffing.antt =====
-- Putting a person on an event and taking them off it or a series: Assign of service.go, Unassign,
-- UnassignSeries and PatchChannels of
-- internal/core/people.go.
mod Defs
pub mod Capabilities
unfoldable pub use Defs.*
