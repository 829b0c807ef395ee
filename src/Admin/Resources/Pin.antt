-- ===== src/Admin/Resources/Pin.antt =====
-- Pinning a live tunnel to its client: internal/server/admin/api_pin.go. The message that asks the
-- client to move is left out, but for the name that it carries.
use drip_ex.Base.{
  ◌==◌, if◌then◌else◌, or_default, find?, Bytes, str_eq, is_empty, trim_space, Result, refuse_if,
  ◌>>=◌, ◌>>◌, ok, err, ℕ, ◌≡◌, Bool, true, false, not, ◌&&◌, ◌||◌, some, List, [],
}
use drip_ex.Names.{tcp, tcp_name, normalize_tunnel_type}
use drip_ex.Store.Reservations.{Reservation, StoreError, trimmed}
use drip_ex.Resolver
use drip_ex.Store.Sessions.{SessionRow, is_session, get_session, set_session_reservation}
use drip_ex.Admin.Panel.{Reply, bad_request, status_conflict}
use drip_ex.Admin.Resources.{Console, by_status, asked, insert_checked}

-- What the pin reserves: the port of a TCP tunnel, which takes no name, or else the name that is
-- asked for, or the one that the tunnel has.
unfoldable pub pin_target : SessionRow → Bytes → Reply (Bytes × ℕ)
pin_target s name =
    if str_eq (normalize_tunnel_type s.tunnel_type) tcp
    then (do refuse_if (not (is_empty name)) bad_request; ok ([], s.tcp_port))
    else ok (if is_empty name then s.subdomain else name, 0)

-- The pin is of a name that the tunnel does not have.
unfoldable pub is_renamed : SessionRow → Reservation → Bool
is_renamed s r = not (is_empty r.subdomain) && not (str_eq r.subdomain s.subdomain)

abbrev or_kept : List SessionRow → Result StoreError (List SessionRow) → List SessionRow
or_kept rows (err e) = rows
or_kept rows (ok rows') = rows'

abbrev pub link_session : SessionRow → Reservation → Console → Console
link_session s r c =
    if is_renamed s r
    then c
    else record c { sessions = or_kept c.sessions (set_session_reservation s.id r.id c.sessions) }

unfoldable pub handle_pin_session :
    Bytes → ℕ → (id subdomain bandwidth : Bytes) → Console → Reply (Console × Reservation)
handle_pin_session fresh_id now id subdomain bandwidth c = do
  s ← by_status (get_session c.sessions id)
  refuse_if (is_empty s.account_id || is_empty s.client_id) bad_request
  refuse_if (not (is_empty (or_default [] s.reservation_id))) status_conflict
  target ← pin_target s (trimmed subdomain)
  made ←
      insert_checked fresh_id now
        (asked s.account_id (some s.client_id) s.tunnel_type target.0 target.1
          (trim_space bandwidth))
        c
  ok (link_session s made.1 made.0, made.1)

-- The name that the client is asked to register again under.
unfoldable pub rebind_target : Reservation → Bytes
rebind_target r = if r.tcp_port == 0 then r.subdomain else tcp_name r.tcp_port

module _ (fresh_id : Bytes) (now : ℕ) (id subdomain bandwidth : Bytes) (c c' : Console)
    (r : Reservation) (s : SessionRow) (found : find? (is_session id) c.sessions ≡ some s)
    (pinned : handle_pin_session fresh_id now id subdomain bandwidth c ≡ ok (c', r)) where
  -- The row that the pin inserts.
  abbrev pinned_row : Bytes × ℕ → Reservation
  pinned_row target =
      asked s.account_id (some s.client_id) s.tunnel_type target.0 target.1 (trim_space bandwidth)

  -- How the pin came about.
  abbrev Pinned : Type 0
  Pinned =
      (target : Bytes × ℕ) × (made : Console) × (is_empty s.account_id ≡ false)
      × (is_empty s.client_id ≡ false)
      × (is_empty (or_default [] s.reservation_id) ≡ true)
      × (pin_target s (trimmed subdomain) ≡ ok target)
      × (insert_checked fresh_id now (pinned_row target) c ≡ ok (made, r))
      × (c' ≡ link_session s r made)
