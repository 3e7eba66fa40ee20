-- ===== src/Ledger.antt =====
-- services/paper_broker/ledger.py: the paper broker. `Book` is its state, `Entry` and `Exit` carry
-- out the fill of a purchase and of a sale, `Pending` processes the pending orders, and `Orders`
-- submits orders. The other children are proofs.
pub mod Book
pub mod Entry
pub mod Exit
pub mod Pending
pub mod CashRows
pub mod Replay
pub mod Audited
pub mod Mandate
pub mod Justification
pub mod Bounds
pub mod Preservation
pub mod Orders
pub mod Fixtures
mod Tests
