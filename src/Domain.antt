-- ===== src/Domain.antt =====
-- internal/domain/id.go: node and network identifiers, which are lower-case hexadecimal strings.
pub mod Ids
pub mod Networks
pub mod Members
mod Examples
