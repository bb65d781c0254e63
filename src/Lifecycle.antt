-- ===== src/Lifecycle.antt =====
-- The simulator (simulation/lifecycle.go). Its parts: `Numbers`, the float64 arithmetic of the meter and
-- of the costs; `Advance`, from PENDING to ACTIVE and within ACTIVE; `Complete`, to COMPLETED with a CDR;
-- `Reservations`; `Tick`, the loop; and the theorems.
pub mod Numbers
pub mod Advance
pub mod Complete
pub mod Reservations
pub mod Tick
pub mod Machine
pub mod Callbacks
pub mod Billing
pub mod Progress
pub mod Entries
pub mod Round
pub mod Expiry
