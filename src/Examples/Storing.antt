-- ===== src/Examples/Storing.antt =====
-- The database and the authenticator at concrete inputs.
use drip_ex.Base.{
  Bytes, codes, str_eq, is_empty, to_lower, trim_space, strip_prefix, lookup, insert, ok, err, pos,
  ◌≡◌, refl, subst, true, false, none, some, List, [], ◌∷◌, arith,
}
use drip_ex.Names.{
  http, normalize_tunnel_type, subdomain_regex, matches_tail, validate_subdomain, is_reserved,
}
use drip_ex.Store.Reservations.{
  Reservation, trimmed, new_row, check_row, insert_row, create_reservation,
  get_reservation_by_subdomain, not_found,
}
use drip_ex.Store.Database.{
  Account, Client, Database, empty_database, known_rows, accounts_clash, clients_clash,
  create_account, create_client, delete_account, drop_clients, get_client, get_account,
}
use drip_ex.Store.Database.Statements.{
  Statement, insert_account, insert_client, insert_reservation, execute, execute_all,
}
use drip_ex.Store.Database.Consistency.{IsConsistent}
use drip_ex.Store.Database.Integrity.{execute_all-IsConsistent}
use drip_ex.Store.Database.Removal.{delete_account_lem, if_not_owned, if_not_reserved}
use drip_ex.Auth.Credentials.{
  Credential, is_credential, parse_credential, cut_at, is_hex_string, verify_secret,
}
use drip_ex.Auth.Authenticator.{
  Authenticator, AuthConfig, CredentialStore, stored, database_store, new_authenticator, cached,
  read_store, remember, find_credential, touch, identity_client_id, check_client,
  authenticate_credential, authenticate,
}
use drip_ex.Auth.Authenticator.Readings.{started, passed, called}
use drip_ex.Auth.Authenticator.Recency.{IsLetIn, authenticate-WasHeld}

abbrev laptop_id : Bytes
laptop_id = codes "00ff00ff00ff00ff"

abbrev laptop : Client
laptop = record {
  id = laptop_id;
  account_id = codes "team";
  name = codes " laptop";
  secret_hash = codes "s3cret";
  enabled = true;
  bandwidth = [];
  last_seen_at = none;
  last_seen_ip = [];
  created_at = 0;
  updated_at = 0;
}

abbrev acme : Reservation
acme = record {
  id = [];
  account_id = codes "team";
  client_id = some laptop_id;
  tunnel_type = http;
  subdomain = codes "acme";
  tcp_port = 0;
  bandwidth = [];
  enabled = true;
  created_at = 0;
  updated_at = 0;
}

abbrev statements : List Statement
statements =
    insert_account (codes "team") 1 (codes "Team") (pos 3)
    ∷ insert_account (codes "other") 2 (codes "Team") (pos 0)
    ∷ insert_client 3 laptop
    ∷ insert_reservation (codes "r1") 4 acme
    ∷ []

abbrev team : Account
team = record {
  id = codes "team";
  name = codes "Team";
  enabled = true;
  max_tunnels = pos 3;
  created_at = 1;
  updated_at = 1;
}

abbrev team_database : Database
team_database = record {
  accounts = team ∷ [];
  clients = record laptop { name = codes "laptop"; created_at = 3; updated_at = 3 } ∷ [];
  reservations = new_row (codes "r1") 4 acme ∷ [];
}

statements_run : execute_all statements empty_database ≡ team_database
unfolding execute_all execute create_account create_client create_reservation known_rows
    accounts_clash clients_clash check_row insert_row new_row normalize_tunnel_type
    validate_subdomain is_reserved subdomain_regex matches_tail to_lower trim_space str_eq
statements_run = refl

empty_database-IsConsistent : IsConsistent empty_database
empty_database-IsConsistent = record {
  accounts = tt;
  limits = tt;
  clients = tt;
  owners = tt;
  reservations = tt;
  backed = tt;
}

execute_all-IsConsistent_example : IsConsistent (execute_all statements empty_database)
execute_all-IsConsistent_example =
    execute_all-IsConsistent statements empty_database empty_database-IsConsistent

team_database-IsConsistent : IsConsistent team_database
team_database-IsConsistent =
    subst IsConsistent statements_run
      (execute_all-IsConsistent statements empty_database empty_database-IsConsistent)

team_deleted : delete_account (codes "team") team_database ≡ ok empty_database
unfolding delete_account drop_clients new_row str_eq
team_deleted = refl

acme_named : is_empty (trimmed (codes "Acme")) ≡ false
unfolding to_lower trim_space
acme_named = refl

delete_account_lem_example :
    (get_account empty_database (codes "team") ≡ err not_found)
    × (get_client empty_database laptop_id
        ≡ if_not_owned (codes "team") (get_client team_database laptop_id))
    × (get_reservation_by_subdomain [] (codes "Acme")
        ≡ if_not_reserved
            (codes "team")
            (λ c. false)
            (get_reservation_by_subdomain team_database.reservations (codes "Acme")))
delete_account_lem_example =
    delete_account_lem (codes "team") laptop_id (codes "Acme") team_database empty_database
      team_database-IsConsistent acme_named team_deleted

abbrev same_bytes : Bytes → Bytes
same_bytes secret = secret

abbrev laptop_credential : Credential
laptop_credential = record { id = laptop_id; secret = codes "s3cret" }

abbrev laptop_token : Bytes
laptop_token = codes "drip_00ff00ff00ff00ff_s3cret"

abbrev team_config : AuthConfig
team_config = record { legacy_token = codes "shared"; allow_anonymous = false; cache_ttl = pos 30 }

abbrev team_store : CredentialStore
team_store = database_store team_database

-- The database after the account is gone.
abbrev empty_store : CredentialStore
empty_store = database_store empty_database

abbrev seen_laptop : Client
seen_laptop = record laptop { name = codes "laptop"; created_at = 3; updated_at = 3 }

-- The laptop has authenticated at time 100.
abbrev used : Authenticator
used =
    (authenticate same_bytes 100 (some team_store) laptop_token []
      (new_authenticator team_config)).0

-- The laptop is still let in 20 ticks after its account is deleted.
let_in_late :
    (authenticate same_bytes 120 (some empty_store) laptop_token [] used).1
    ≡ ok (stored seen_laptop team)
unfolding authenticate authenticate_credential is_credential parse_credential cut_at is_hex_string
    find_credential cached read_store remember check_client verify_secret database_store get_client
    get_account new_authenticator touch identity_client_id lookup insert str_eq strip_prefix
let_in_late = refl

authenticate-WasHeld_example :
    IsLetIn same_bytes team_config 120 empty_store
      ((100, team_store) ∷ [])
      laptop_token
      seen_laptop
      team
authenticate-WasHeld_example =
    authenticate-WasHeld same_bytes team_config 120 empty_store ((100, team_store) ∷ []) used
      laptop_token [] seen_laptop team
      (passed 120 empty_store (omega arith) (called laptop_token [] (started (100, team_store))))
      let_in_late
