-- ===== src/Gnssdo.antt =====
-- gnssdo: the tracker of the pulse, the correction of its quantisation error, the control loops, the
-- disciplined clock, and the policy that connects them.
pub mod Tracker
pub mod QuantisationError
pub mod Control
pub mod Pll
pub mod IntegralRework
pub mod AlphaBeta
pub mod Controllers
pub mod Clock
pub mod Discipline
mod Examples
