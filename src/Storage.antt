-- ===== src/Storage.antt =====
-- `StorageService` (src/modules/storage/storage.service.ts): keys and links of stored objects. A
-- text is the list of its code points.
pub mod Keys
pub mod Canonical
pub mod Objects
