-- ===== src/Admission.antt =====
-- src/admission.rs and its modules: what may be loaded, and what is unloaded first.
pub mod Subject
pub mod Room
pub mod Admit
pub mod Budget
pub mod Choice
pub mod Exact
pub mod Fits
pub mod Taken
pub mod MakesRoom
pub mod Ledger
pub mod Order
pub mod Outcomes
pub mod Permanence
pub mod Derived
mod Tests
