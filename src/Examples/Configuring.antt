-- ===== src/Examples/Configuring.antt =====
-- Resources of the panel at concrete inputs.
use drip_ex.Base.{
  Bytes, codes, str_eq, delete, ok, pos, ◌≡◌, refl, ◌≢◌, true, false, none, some, [], ◌∷◌,
}
use drip_ex.Names.{http}
use drip_ex.Store.Reservations.{Reservation}
use drip_ex.Store.Database.{
  Account, Client, Database, get_client, get_account, update_account, rotate_client_secret,
}
use drip_ex.Store.Sessions.{SessionRow}
use drip_ex.Auth.Credentials.{Credential, show_credential, parse_credential, cut_at, is_hex_string}
use drip_ex.Auth.Authenticator.{
  Authenticator, Identity, stored, authenticate, database_store, invalidate,
}
use drip_ex.Resolver
use drip_ex.Admin.Resources.{
  Console, invalidate_account, invalidate_client, handle_update_account, handle_rotate_client,
}
use drip_ex.Admin.Resources.Effects.{handle_update_account-Refuses, handle_rotate_client-Refuses}

abbrev team : Account
team = record {
  id = codes "team";
  name = codes "Team";
  enabled = true;
  max_tunnels = pos 0;
  created_at = 1;
  updated_at = 1;
}

abbrev plain : Bytes → Bytes
plain s = s

abbrev laptop_id : Bytes
laptop_id = codes "00ff00ff00ff00ff"

abbrev laptop : Client
laptop = record {
  id = laptop_id;
  account_id = codes "team";
  name = codes "laptop";
  secret_hash = codes "s1";
  enabled = true;
  bandwidth = [];
  last_seen_at = none;
  last_seen_ip = [];
  created_at = 1;
  updated_at = 1;
}

abbrev rows : Database
rows = record { accounts = team ∷ []; clients = laptop ∷ []; reservations = [] }

abbrev doorman : Authenticator
doorman = record {
  legacy_token = [];
  allow_anonymous = false;
  cache_ttl = 30;
  cache = (laptop_id, record { client = laptop; account = team; expires_at = 40 }) ∷ [];
  touches = [];
  closed = false;
}

abbrev live : SessionRow
live = record {
  id = codes "s1";
  account_id = codes "team";
  client_id = laptop_id;
  reservation_id = none;
  tunnel_type = codes "https";
  subdomain = codes "acme";
  tcp_port = 0;
  local_port = 3000;
  remote_ip = codes "1.2.3.4";
  started_at = some 5;
}

abbrev console : Console
console = record {
  database = rows;
  sessions = live ∷ [];
  authenticator = some doorman;
  tcp_port_min = 0;
  tcp_port_max = 0;
}

abbrev pinned : Reservation
pinned = record {
  id = codes "r1";
  account_id = codes "team";
  client_id = some (laptop_id);
  tunnel_type = http;
  subdomain = codes "acme";
  tcp_port = 0;
  bandwidth = [];
  enabled = true;
  created_at = 7;
  updated_at = 7;
}

abbrev after_pin : Console
after_pin = record console {
  database = record rows { reservations = pinned ∷ [] };
  sessions = record live { reservation_id = some (codes "r1") } ∷ [];
}

abbrev wanted : Resolver.Request
wanted = record {
  account_id = codes "team";
  client_id = laptop_id;
  tunnel_type = http;
  requested_subdomain = codes "Acme";
  requested_tcp_port = 0;
}

abbrev laptop_credential : Credential
laptop_credential = record { id = laptop_id; secret = codes "s1" }

abbrev laptop_token : Bytes
laptop_token = codes "drip_00ff00ff00ff00ff_s1"

laptop_parsed : parse_credential laptop_token ≡ ok laptop_credential
unfolding parse_credential cut_at is_hex_string str_eq
laptop_parsed = refl

abbrev emptied : Authenticator
emptied = record doorman { cache = [] }

abbrev switched_off : Console
switched_off = record console {
  database = record rows { accounts = record team { enabled = false; updated_at = 9 } ∷ [] };
  authenticator = some emptied;
}

team_off :
    handle_update_account true 9 (codes "team") none (some false) none console ≡ ok switched_off
unfolding handle_update_account get_account update_account invalidate_account invalidate delete
    str_eq
team_off = refl

laptop_there : get_client rows laptop_id ≡ ok laptop
unfolding get_client str_eq
laptop_there = refl

handle_update_account-Refuses_example :
    (authenticate plain 10 (some (database_store switched_off.database)) laptop_token [] emptied).1
    ≢ ok (stored laptop team)
handle_update_account-Refuses_example =
    handle_update_account-Refuses plain 10 laptop_token [] laptop_credential laptop_parsed console
      switched_off doorman emptied refl refl true 9 (codes "team") none none laptop team_off
      laptop_there refl (stored laptop team)

abbrev rotated : Console
rotated = record console {
  database = record rows {
    clients = record laptop { secret_hash = codes "s2"; updated_at = 9 } ∷ [];
  };
  authenticator = some emptied;
}

abbrev drawn : Credential
drawn = record { id = codes "ffff"; secret = codes "s2" }

laptop_rotated :
    handle_rotate_client plain 9 drawn laptop_id console
    ≡ ok (rotated, show_credential (record drawn { id = laptop_id }))
unfolding handle_rotate_client get_client rotate_client_secret invalidate_client invalidate delete
    str_eq
laptop_rotated = refl

handle_rotate_client-Refuses_example :
    (show_credential (record drawn { id = laptop_id })
      ≡ show_credential (record drawn { id = laptop_id }))
    × ((who : Identity)
        → (authenticate plain 10 (some (database_store rotated.database)) laptop_token [] emptied).1
          ≡ ok who
        → codes "s1" ≡ codes "s2")
handle_rotate_client-Refuses_example =
    handle_rotate_client-Refuses plain 10 laptop_token [] laptop_credential laptop_parsed console
      rotated doorman emptied refl refl 9 drawn laptop_id
      (show_credential (record drawn { id = laptop_id })) laptop_rotated refl

abbrev laptop_gone : Database
laptop_gone = record rows { clients = [] }
