-- ===== src/Admin/Panel/History.antt =====
-- What reaches the panel of internal/server/admin, and the calls of its store, as events; a history
-- has its last event first.
use drip_ex.Base.{
  ltb, leb, or_default, take, Bytes, str_eq, is_empty, Result, ok, err, ℕ, ◌+◌, ◌/◌, ◌≡◌, ◌⊎◌, Bool,
  true, false, not, ◌&&◌, Option, some, List, [], ◌∷◌,
}
use drip_ex.Store.Admins.{
  Admins, AdminUser, AdminSession, admin_session_row, is_session_of, get_admin_user_by_username,
  count_admin_users, create_admin_user, update_admin_user, set_admin_password, delete_admin_user,
}
use drip_ex.Store.Admins.Integrity.{or_same}
use drip_ex.Store.Reservations.{trimmed}
use drip_ex.Auth.Passwords.{Crypto, hash_password}
use drip_ex.Admin.LoginLimiter.{allow}
use drip_ex.Admin.Panel.{
  PanelRequest, Panel, client_ip, user_key, first_user, password_matches, authed, handle_login,
  handle_bootstrap, handle_logout, sweep,
}

pub data Event : Type 0 where
  logs_in :
      (now : ℕ)
      → (draw : Option (Bytes × Bytes)) → (rq : PanelRequest) → (name password : Bytes) → Event
  bootstraps :
      (now : ℕ)
      → (fresh_id account_id salt : Bytes) → (draw : Option (Bytes × Bytes)) → (rq : PanelRequest)
      → (name password : Bytes) → Event
  logs_out : (now : ℕ) → (runs : Bool) → (rq : PanelRequest) → Event
  sweeps : (now : ℕ) → Event
  -- Calls of the store on an operator.
  changes : (now : ℕ) → (user : AdminUser) → Event
  renews_password : (now : ℕ) → (id password_hash : Bytes) → Event
  removes : (id : Bytes) → Event

abbrev with_admins : Panel → Admins → Panel
with_admins p admins = record p { admins = admins }

abbrev pub passed : {E A : Type 0} → Result E A → Bool
passed (err e) = false
passed (ok a) = true

module _ (hash_token : Bytes → Bytes) (loopback : Bytes → Bool) (crypto : Crypto)
    (runes : Bytes → ℕ) where
  unfoldable pub step : Event → Panel → Panel
  step (logs_in now draw rq name password) p =
      (handle_login hash_token loopback crypto now draw rq name password p).0
  step (bootstraps now fresh_id account_id salt draw rq name password) p =
      (handle_bootstrap hash_token loopback crypto runes now fresh_id account_id salt draw rq name
        password p).0
  step (logs_out now runs rq) p = (handle_logout hash_token loopback now runs rq p).0
  step (sweeps now) p = sweep now p
  step (changes now user) p = with_admins p (or_same p.admins (update_admin_user now user p.admins))
  step (renews_password now id password_hash) p =
      with_admins p (or_same p.admins (set_admin_password now id password_hash p.admins))
  step (removes id) p = with_admins p (or_same p.admins (delete_admin_user id p.admins))

  unfoldable pub panel_after : List Event → Panel → Panel
  panel_after [] p = p
  panel_after (e ∷ before) p = step e (panel_after before p)

  -- The event grants the session: an enabled operator signed in by name with the right password
  -- while the throttle let both keys through, or the first operator was founded.
  abbrev pub Grants : Event → Panel → AdminSession → Type 0
  Grants (logs_in now draw rq name password) p s =
      (user : AdminUser) × (token csrf : Bytes) × (get_admin_user_by_username p.admins
          (trimmed name)
        ≡ ok user)
      × (password_matches crypto password user.password_hash ≡ true)
      × (user.enabled ≡ true)
      × (allow now (client_ip rq.remote_addr) p.limiter ≡ true)
      × (allow now (user_key (trimmed name)) p.limiter ≡ true)
      × (draw ≡ some (token, csrf))
      × (s
          ≡ admin_session_row now (hash_token token) user.id (now + p.session_ttl)
              (client_ip rq.remote_addr) (take 256 rq.user_agent))
  Grants (bootstraps now fresh_id account_id salt draw rq name password) p s =
      (admins : Admins) × (user : AdminUser) × (hash token csrf : Bytes) × (count_admin_users
          p.admins
        ≡ 0)
      × (ltb (runes password) 12 ≡ false)
      × (hash_password crypto salt password ≡ some hash)
      × (create_admin_user fresh_id now (first_user name hash) p.admins ≡ ok (admins, user))
      × (draw ≡ some (token, csrf))
      × (s
          ≡ admin_session_row now (hash_token token) user.id (now + p.session_ttl)
              (client_ip rq.remote_addr) (take 256 rq.user_agent))
  Grants other p s = ⊥

  -- The event ends the session: a sign-out with its cookie whose deletion the store ran, the removal of
  -- its operator, or a purge of its time.
  unfoldable pub ends : Event → Panel → AdminSession → Bool
  ends (logs_out now runs rq) p s =
      runs
      && passed (authed hash_token loopback now rq p)
      && not (is_empty (or_default [] rq.session_cookie))
      && str_eq s.id (hash_token (or_default [] rq.session_cookie))
  ends (removes id) p s = passed (delete_admin_user id p.admins) && is_session_of id s
  ends (sweeps now) p s = leb s.expires_at (now / 1000000000)
  ends other p s = false

  -- A session was granted in the history, and nothing has ended it since.
  abbrev pub IsGranted : List Event → Panel → AdminSession → Type 0
  IsGranted [] p s = ⊥
  IsGranted (e ∷ before) p s =
      Grants e (panel_after before p) s
      ⊎ (IsGranted before p s × (ends e (panel_after before p) s ≡ false))
