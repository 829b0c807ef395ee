-- ===== src/Examples/Resolving.antt =====
-- The resolver at concrete inputs, over a table with one reservation of each family.
use drip_ex.Base.{
  ◌==◌, if◌then◌else◌, Bytes, codes, str_eq, to_lower, trim_space, ok, err, ◌≡◌, refl, ◌≢◌, ◌↔◌,
  Bool, true, false, some, [], ◌∷◌,
}
use drip_ex.Names.{http, tcp, normalize_tunnel_type}
use drip_ex.Store.Reservations.{
  Reservation, ReservationStore, not_found, trimmed, table_store, get_reservation_by_tcp_port,
}
use drip_ex.Resolver.{
  Request, ephemeral, resolution_for, check_ownership, resolve_http, resolve_tcp, resolve_stored,
  resolve,
}
use drip_ex.Resolver.Ownership.{IsGranted, resolve_http_iff}

abbrev pub acme : Reservation
acme = record {
  id = codes "r1";
  account_id = codes "team";
  client_id = some (codes "laptop");
  tunnel_type = http;
  subdomain = codes "acme";
  tcp_port = 0;
  bandwidth = [];
  enabled = true;
  created_at = 100;
  updated_at = 100;
}

abbrev game : Reservation
game = record acme { id = codes "r2"; tunnel_type = tcp; subdomain = []; tcp_port = 20001 }

abbrev table : ReservationStore
table = table_store (game ∷ acme ∷ [])

abbrev idle : Bytes → Bool
idle name = false

-- A store that holds the two rows and nothing else, written out.
abbrev pub shelf : ReservationStore
shelf = record {
  by_subdomain = λ name. if str_eq name (codes "acme") then ok acme else err not_found;
  by_tcp_port = λ port. if port == 20001 then ok game else err not_found;
  for_client = λ client kind. ok (acme ∷ []);
}

abbrev wants : Request
wants = record {
  account_id = codes "team";
  client_id = codes "laptop";
  tunnel_type = http;
  requested_subdomain = codes "acme";
  requested_tcp_port = 20001;
}

asks : trimmed wants.requested_subdomain ≢ []
unfolding to_lower trim_space
asks e = cc

resolve_http_iff_example :
    (resolve_http table false idle wants ≡ ok (resolution_for acme))
    ↔ IsGranted table false idle wants
        (table.by_subdomain (trimmed (codes "acme")))
        (ephemeral (trimmed (codes "acme")) 0)
        (resolution_for acme)
resolve_http_iff_example = resolve_http_iff table false idle wants (resolution_for acme) asks

game_granted : resolve_tcp table false idle wants ≡ ok (resolution_for game)
unfolding resolve_tcp table_store get_reservation_by_tcp_port check_ownership resolution_for str_eq
game_granted = refl

acme_granted :
    resolve (record { store = some shelf; require_reservation = true }) idle wants
    ≡ ok (resolution_for acme)
unfolding resolve resolve_stored resolve_http check_ownership resolution_for to_lower trim_space
    str_eq normalize_tunnel_type
acme_granted = refl
