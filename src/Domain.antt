-- ===== src/Domain.antt =====
-- src/domain: the identifiers, the grid's levels and the classification of observed orders.
pub mod Levels
pub mod ScopeKey
pub mod OrderId
pub mod Ownership
pub mod Duplicates
