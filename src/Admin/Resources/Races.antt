-- ===== src/Admin/Resources/Races.antt =====
-- A registration that comes between the two steps of a deletion in the panel:
-- internal/server/admin/api_resources.go and internal/server/auth/authenticator.go.
use drip_ex.Store.Database.{Database}
use drip_ex.Auth.Authenticator.{Authenticator}
