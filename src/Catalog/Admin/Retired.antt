-- ===== src/Catalog/Admin/Retired.antt =====
-- A certificate that `softDelete` of src/modules/catalog/catalog.service.ts has retired.
use ios_backend.Base.{false, ◌&&◌, String, ◌≡◌}
use ios_backend.Catalog.Types.{Cert, cert_has_id}

-- Where a row of the id stands, it is inactive.
abbrev IsRetired : String → Cert → Type 0
IsRetired id c = (cert_has_id id c && c.active) ≡ false
