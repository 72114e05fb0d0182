-- ===== src/Catalog.antt =====
-- `CatalogService` (src/modules/catalog/catalog.service.ts): the certificates that are on sale.
pub mod Types
pub mod Rows
pub mod Listing
pub mod Admin
