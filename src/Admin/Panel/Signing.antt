-- ===== src/Admin/Panel/Signing.antt =====
-- What a sign-in, a sign-out and the first setup of the panel lead to: internal/server/admin.
use drip_ex.Base.{
  ◌&&◌, if◌then◌else◌, Bool-cases, or_default, take, find?, select, Bytes, codes, str_eq,
  str_eq_iff, str_eq_refl, is_empty, Result, find-select_kept, find-select_gone, find-map,
  find-NoClash, ok, err, ℕ, ◌+◌, ◌*◌, ◌≤◌, ◌≡◌, refl, ap, ◌∙◌, inl, inr, Bool, true, false, not,
  Option, none, some, [], ◌∷◌, map, arith,
}
use drip_ex.Store.Reservations.{StoreError, trimmed}
use drip_ex.Store.Admins.{
  Admins, AdminUser, AdminSession, admin_session_row, is_expired, is_user, is_named, new_user,
  is_admin_session, unix, users_clash, signed_in, get_admin_user, get_admin_session,
  get_admin_user_by_username, count_admin_users, create_admin_user, create_admin_session,
  touch_admin_login, delete_admin_session,
}
use drip_ex.Store.Admins.Integrity.{IsSound}
use drip_ex.Auth.Passwords.{Crypto, hash_password}
use drip_ex.Admin.Panel.{
  PanelRequest, Panel, Cookies, Reply, client_ip, first_user, founded, issue_session, current_user,
  authed, welcome, handle_login, first_issue, found_deployment, hashed_or_failed, handle_bootstrap,
  handle_logout, has_administrator, public_gate,
}

module _ (hash_token : Bytes → Bytes) (loopback : Bytes → Bool) where
  -- The user that a session leads to is the one that is found by another key.
  current_user_of :
      (later : ℕ) (rq : PanelRequest) (p : Panel) (u : AdminUser) (s : AdminSession)
      → is_empty (or_default [] rq.session_cookie) ≡ false
      → find? (is_admin_session (hash_token (or_default [] rq.session_cookie))) p.admins.sessions
        ≡ some s
      → is_expired later s ≡ false
      → find? (is_user s.user_id) p.admins.users ≡ some u
      → u.enabled ≡ true
      → current_user hash_token loopback later rq p ≡ ok (u, s)
  unfolding current_user get_admin_session get_admin_user
  current_user_of later rq p u s cookie session live user enabled = ground arith

  module _ (crypto : Crypto) where
    login_parts :
        (now : ℕ) (token csrf : Bytes) (rq : PanelRequest) (name password : Bytes) (p p' : Panel)
        (u : AdminUser) (c : Cookies)
        → handle_login hash_token loopback crypto now (some (token, csrf)) rq name password p
          ≡ (p', ok (u, c))
        → (find? (is_named (trimmed (trimmed name))) p.admins.users ≡ some u)
          × (u.enabled ≡ true)
          × (c.session ≡ token)
          × (p'.admins.sessions
              ≡ admin_session_row now
                  (hash_token token)
                  u.id
                  (now + p.session_ttl)
                  (client_ip rq.remote_addr)
                  (take 256 rq.user_agent)
                ∷ p.admins.sessions)
          × (p'.admins.users ≡ map (signed_in now u.id) p.admins.users)
    unfolding handle_login welcome issue_session create_admin_session touch_admin_login
        get_admin_user_by_username
    login_parts now token csrf rq name password p p' u c e = ground arith

    -- On sound tables, a sign-in that succeeds hands out a cookie that works: until the second of its
    -- expiry, a request with this cookie is taken for the operator who has the name, unless the
    -- cookie is empty.
    pub current_user-handle_login :
        (now later : ℕ) (token csrf : Bytes) (rq rq' : PanelRequest) (name password : Bytes)
        (p p' : Panel) (u : AdminUser) (c : Cookies)
        → IsSound p.admins
        → handle_login hash_token loopback crypto now (some (token, csrf)) rq name password p
          ≡ (p', ok (u, c))
        → rq'.session_cookie ≡ some c.session
        → is_empty c.session ≡ false
        → later ≤ unix (now + p.session_ttl) * 1000000000
        → current_user hash_token loopback later rq' p'
          ≡ ok (
            record u { last_login_at = some (unix now) },
            admin_session_row now
                (hash_token token)
                u.id
                (now + p.session_ttl)
                (client_ip rq.remote_addr)
                (take 256 rq.user_agent),
          )
    unfolding users_clash
    current_user-handle_login now later token csrf rq rq' name password p p' u c inv e sent there
          live =
        let (found, enabled, session, sessions, users) =
          login_parts now token csrf rq name password p p' u c e in
        let cookie : or_default [] rq'.session_cookie ≡ token = rw (sent, session) refl in
        let by_id : find? (is_user u.id) p.admins.users ≡ some u =
          find-NoClash users_clash (is_user u.id) (is_named (trimmed (trimmed name))) p.admins.users
            u inv.users (λ v apart here. ground (arith, str_eq_iff v.id u.id, str_eq_iff u.id v.id))
            (str_eq_refl u.id) found in
        let still : find? (is_user u.id) (map (signed_in now u.id) p.admins.users)
            ≡ some (record u { last_login_at = some (unix now) }) =
          find-map (signed_in now u.id) (is_user u.id) p.admins.users (λ v. ground arith)
          ∙ rw by_id (rw (str_eq_refl u.id) refl) in
        current_user_of later rq' p' _ _ (rw cookie (cc))
          (rw (cookie, sessions, str_eq_refl (hash_token token)) refl) (ground arith)
          (rw users still) enabled

  logout_parts :
      (now : ℕ) (runs : Bool) (rq : PanelRequest) (p p' : Panel)
      → handle_logout hash_token loopback now runs rq p ≡ (p', ok tt)
      → (p'.admins.sessions ≡ (
          if runs
          then select
              (λ s. not (is_admin_session (hash_token (or_default [] rq.session_cookie)) s))
              p.admins.sessions
          else p.admins.sessions))
        × (p'.admins.users ≡ p.admins.users)
  unfolding handle_logout authed current_user delete_admin_session
  logout_parts now runs rq p p' e = ground arith

  -- What a sign-out that answers "signed out" leaves: where the store ran the deletion, the cookie is
  -- refused on the panel that it leaves, and a request with any other cookie, one that hashes
  -- otherwise, is taken as before; where the deletion failed, every request is taken as before, the
  -- one with the cookie included.
  pub current_user-handle_logout :
      (now later : ℕ) (runs : Bool) (rq rq' : PanelRequest) (p p' : Panel)
      → handle_logout hash_token loopback now runs rq p ≡ (p', ok tt)
      → current_user hash_token loopback later rq' p' ≡ (
          if runs
            && str_eq
                (hash_token (or_default [] rq'.session_cookie))
                (hash_token (or_default [] rq.session_cookie))
          then err 401
          else current_user hash_token loopback later rq' p)
  unfolding current_user get_admin_session get_admin_user
  current_user-handle_logout now later false rq rq' p p' e =
      let (sessions, users) = logout_parts now false rq p p' e in rw (sessions, users) refl
  current_user-handle_logout now later true rq rq' p p' e =
      let a = hash_token (or_default [] rq'.session_cookie) in
      let b = hash_token (or_default [] rq.session_cookie) in
      let (sessions, users) = logout_parts now true rq p p' e in
      elim (Bool-cases (str_eq a b)) [
        | inl same ↦
            rw
              (
                same,
                sessions,
                find-select_gone (is_admin_session a) (λ s. not (is_admin_session b s))
                    p.admins.sessions (λ s here. ground (arith, str_eq_iff s.id a, str_eq_iff a b)),
              )
              (ground arith)
        | inr other ↦
            rw
              (
                other,
                sessions,
                users,
                find-select_kept (is_admin_session a) (λ s. not (is_admin_session b s))
                    p.admins.sessions
                    (λ s here.
                      ground (arith, str_eq_iff s.id a, str_eq_iff s.id b, str_eq_iff a b)),
              )
              refl
      ]

  issued_parts :
      (now : ℕ) (draw : Option (Bytes × Bytes)) (rq : PanelRequest) (user : AdminUser)
      (p p' : Panel) (c : Cookies)
      → issue_session hash_token loopback now draw rq user p ≡ ok (p', c)
      → (p'.admins.users ≡ p.admins.users) × (p'.bootstrapped ≡ p.bootstrapped)
  unfolding issue_session create_admin_session
  issued_parts now none rq user p p' c e = cc
  issued_parts now (some (token, csrf)) rq user p p' c e = ground arith

  created_parts :
      (fresh_id : Bytes) (now : ℕ) (name hash : Bytes) (db db' : Admins) (u : AdminUser)
      → create_admin_user fresh_id now (first_user name hash) db ≡ ok (db', u)
      → (db'.users ≡ u ∷ db.users)
        × (u.username ≡ trimmed (trimmed name))
        × (u.role ≡ codes "admin")
        × (u.enabled ≡ true)
  unfolding create_admin_user new_user
  created_parts fresh_id now name hash db db' u e = ground arith

  -- What the first setup leaves of a panel.
  abbrev Founds : Bytes → Panel → Panel → AdminUser → Type 0
  Founds name p p' u =
      (p'.admins.users ≡ u ∷ p.admins.users)
      × (p'.bootstrapped ≡ p.bootstrapped)
      × (u.username ≡ trimmed (trimmed name))
      × (u.role ≡ codes "admin")
      × (u.enabled ≡ true)

  module _ (crypto : Crypto) (runes : Bytes → ℕ) where
    issued-Founds :
        (now : ℕ) (fresh_id account_id hash : Bytes) (draw : Option (Bytes × Bytes))
        (rq : PanelRequest) (name : Bytes) (p p' : Panel) (u v : AdminUser) (c : Cookies)
        (admins : Admins)
        → create_admin_user fresh_id now (first_user name hash) p.admins ≡ ok (admins, v)
        → (out : Reply (Panel × Cookies))
        → issue_session hash_token loopback now draw rq v (founded now account_id admins p) ≡ out
        → first_issue v (founded now account_id admins p) out ≡ (p', ok (u, c))
        → Founds name p p' u
    issued-Founds now fresh_id account_id hash draw rq name p p' u v c admins made (err e) issued
          end =
        cc
    issued-Founds now fresh_id account_id hash draw rq name p p' u v c admins made (ok (q, d))
          issued end =
        let issue = issued_parts now draw rq v (founded now account_id admins p) q d issued in
        let create = created_parts fresh_id now name hash p.admins admins v made in ground arith

    bootstrap-Founds :
        (now : ℕ) (fresh_id account_id salt : Bytes) (draw : Option (Bytes × Bytes))
        (rq : PanelRequest) (name password : Bytes) (p p' : Panel) (u : AdminUser) (c : Cookies)
        (hash : Option Bytes)
        → hashed_or_failed hash_token loopback crypto now fresh_id account_id draw rq name p hash
          ≡ (p', ok (u, c))
        → Founds name p p' u
    bootstrap-Founds now fresh_id account_id salt draw rq name password p p' u c none e = cc
    bootstrap-Founds now fresh_id account_id salt draw rq name password p p' u c (some hash) e =
        by_insert _ refl e
      where
        by_insert :
            (made : Result StoreError (Admins × AdminUser))
            → create_admin_user fresh_id now (first_user name hash) p.admins ≡ made
            → found_deployment hash_token loopback crypto now account_id draw rq p made
              ≡ (p', ok (u, c))
            → Founds name p p' u
        by_insert (err refused) made end = cc
        by_insert (ok (admins, v)) made end =
            issued-Founds now fresh_id account_id hash draw rq name p p' u v c admins made _ refl
              end

    bootstrap_parts :
        (now : ℕ) (fresh_id account_id salt : Bytes) (draw : Option (Bytes × Bytes))
        (rq : PanelRequest) (name password : Bytes) (p p' : Panel) (u : AdminUser) (c : Cookies)
        → handle_bootstrap hash_token loopback crypto runes now fresh_id account_id salt draw rq
            name password p
          ≡ (p', ok (u, c))
        → (p.admins.users ≡ []) × Founds name p p' u
    unfolding handle_bootstrap count_admin_users
    bootstrap_parts now fresh_id account_id salt draw rq name password p p' u c e = (
      ground arith,
      bootstrap-Founds now fresh_id account_id salt draw rq name password p p' u c
          (hash_password crypto salt password) (ground arith),
    )

    -- First-run setup succeeds on a panel with no operator only, and leaves one: enabled, with the
    -- role of an administrator, under the trimmed name in lower case. Any further setup is refused
    -- and changes nothing. The public mount lets no request through before, if its latch is open,
    -- and after it lets through all but a setup.
    pub handle_bootstrap_once :
        (now : ℕ) (fresh_id account_id salt : Bytes) (draw : Option (Bytes × Bytes))
        (rq : PanelRequest) (name password : Bytes) (p p' : Panel) (u : AdminUser) (c : Cookies)
        → handle_bootstrap hash_token loopback crypto runes now fresh_id account_id salt draw rq
            name password p
          ≡ (p', ok (u, c))
        → p.bootstrapped ≡ false
        → (p'.admins.users ≡ u ∷ [])
          × (u.username ≡ trimmed (trimmed name))
          × (u.role ≡ codes "admin")
          × (u.enabled ≡ true)
          × ((later : ℕ) (id account salt' : Bytes) (draw' : Option (Bytes × Bytes))
                (rq' : PanelRequest) (name' password' : Bytes)
              → handle_bootstrap hash_token loopback crypto runes later id account salt' draw' rq'
                  name' password' p'
                ≡ (p', err 409))
          × ((bootstraps : Bool) → (public_gate bootstraps p).1 ≡ err 503)
          × ((bootstraps : Bool)
              → (public_gate bootstraps p').1 ≡ (if bootstraps then err 403 else ok tt))
    unfolding public_gate has_administrator count_admin_users handle_bootstrap
    handle_bootstrap_once now fresh_id account_id salt draw rq name password p p' u c e latch =
        let (before, parts) =
          bootstrap_parts now fresh_id account_id salt draw rq name password p p' u c e in
        let (more, same, username, role, enabled) = parts in
        let after : p'.admins.users ≡ u ∷ [] = more ∙ ap (◌∷◌ u) before in
        (
          after,
          username,
          role,
          enabled,
          λ later id account salt' draw' rq' name' password'. rw after refl,
          λ bootstraps. rw (latch, before) refl,
          λ bootstraps. rw (same, latch, after) (ground arith),
        )
