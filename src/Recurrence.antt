-- ===== src/Recurrence.antt =====
-- The inbound calendar: internal/icsimport/parse.go and expand.go.
mod Defs
mod Rule
mod Months
mod Series
mod Expand
mod Unfolding
mod Times
mod Parse
pub mod Spending
pub mod Rounds
pub mod Ending
pub mod Sorting
pub mod Window
unfoldable pub use Defs.*
unfoldable pub use Rule.*
unfoldable pub use Months.*
unfoldable pub use Series.*
unfoldable pub use Expand.*
unfoldable pub use Unfolding.*
unfoldable pub use Times.*
unfoldable pub use Parse.*
