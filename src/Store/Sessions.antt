-- ===== src/Store/Sessions.antt =====
-- The live tunnels of internal/server/store/active_sessions.go: the table `active_sessions` as a
-- list of rows, with its primary key and the unique index on the subdomain.
use drip_ex.Base.{
  ◌==◌, if◌then◌else◌, or_default, any, find?, select, Bytes, str_eq, str_eq_refl, is_empty, Result,
  refuse_if, ◌>>◌, ok, ℕ, ◌≡◌, refl, subst, Bool, false, not, ◌&&◌, ◌||◌, Option, some, List, [],
  ◌∷◌, map, arith,
}
use drip_ex.Names.{normalize_tunnel_type}
use drip_ex.Store.Reservations.{
  StoreError, missing_field, conflict, not_found, null_string, trimmed, one_row,
}

pub record SessionRow : Type 0 where
  pub id : Bytes
  pub account_id : Bytes
  pub client_id : Bytes
  -- `none` is NULL.
  pub reservation_id : Option Bytes
  pub tunnel_type : Bytes
  pub subdomain : Bytes
  pub tcp_port : ℕ
  pub local_port : ℕ
  pub remote_ip : Bytes
  -- In seconds; `none` is the zero time.
  pub started_at : Option ℕ

abbrev pub is_session : Bytes → SessionRow → Bool
is_session id s = str_eq s.id id

-- The primary key or the index on the subdomain refuses the row.
unfoldable pub sessions_clash : SessionRow → SessionRow → Bool
sessions_clash s row =
    str_eq row.id s.id || (not (is_empty s.subdomain) && str_eq row.subdomain s.subdomain)

-- The row that `CreateSession` inserts; `fresh_id` is what `utils.GenerateID` returns.
unfoldable pub new_session : Bytes → ℕ → SessionRow → SessionRow
new_session fresh_id now s = record s {
  id = if is_empty s.id then fresh_id else s.id;
  reservation_id = null_string s.reservation_id;
  tunnel_type = normalize_tunnel_type s.tunnel_type;
  subdomain = trimmed s.subdomain;
  started_at = some (or_default now s.started_at);
}

unfoldable pub create_session :
    Bytes → ℕ → SessionRow → List SessionRow → Result StoreError (List SessionRow)
create_session fresh_id now s rows = do
  refuse_if (is_empty (trimmed s.subdomain) && s.tcp_port == 0) missing_field
  refuse_if (any (sessions_clash (new_session fresh_id now s)) rows) conflict
  ok (new_session fresh_id now s ∷ rows)

unfoldable pub get_session : List SessionRow → Bytes → Result StoreError SessionRow
get_session rows id = one_row (find? (is_session id) rows)

-- A row that is missing is no error.
unfoldable pub delete_session : Bytes → List SessionRow → List SessionRow
delete_session id rows = select (λ s. not (is_session id s)) rows

abbrev pub linked : Bytes → Bytes → SessionRow → SessionRow
linked id reservation_id s =
    if is_session id s then record s { reservation_id = null_string (some reservation_id) } else s

unfoldable pub set_session_reservation :
    Bytes → Bytes → List SessionRow → Result StoreError (List SessionRow)
set_session_reservation id reservation_id rows = do
  refuse_if (not (any (is_session id) rows)) not_found
  ok (map (linked id reservation_id) rows)

unfoldable pub purge_sessions : List SessionRow → List SessionRow
purge_sessions rows = []

without :
    (s : SessionRow) (rows : List SessionRow)
    → any (sessions_clash s) rows ≡ false
    → select (λ q. not (is_session s.id q)) rows ≡ rows
unfolding sessions_clash
without s [] free = refl
without s (q ∷ rows) free = ground (arith, without s rows)

-- A session that is recorded is found under its id, as it was normalized; when it is deleted, the
-- table is as it was before, so that its name can be recorded again.
pub delete-create_session :
    (fresh_id : Bytes) (now : ℕ) (s : SessionRow) (rows rows' : List SessionRow)
    → create_session fresh_id now s rows ≡ ok rows'
    → (get_session rows' (new_session fresh_id now s).id ≡ ok (new_session fresh_id now s))
      × (delete_session (new_session fresh_id now s).id rows' ≡ rows)
unfolding create_session get_session delete_session
delete-create_session fresh_id now s rows rows' e =
    let row = new_session fresh_id now s in
    let free : any (sessions_clash row) rows ≡ false = ground arith in
    let same : row ∷ rows ≡ rows' = ground arith in
    subst (λ out. (get_session out row.id ≡ ok row) × (delete_session row.id out ≡ rows)) same
      (rw (str_eq_refl row.id) (refl, without row rows free))
