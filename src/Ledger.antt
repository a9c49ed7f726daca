-- ===== src/Ledger.antt =====
-- The issuance ledger of the policy package.
pub mod Rows
pub mod Transaction
pub mod Reserve
pub mod Sign
pub mod Issue
pub mod Valid
pub mod Update
pub mod Amounts
pub mod Reserved
pub mod Step
pub mod Written
pub mod Refines
pub mod History
pub mod Persist
pub mod Stored
pub mod Signers
pub mod Success
mod Examples
