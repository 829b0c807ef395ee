-- ===== src/Admin/Panel/Opened.antt =====
-- What the writes of the panel do to the table of its sessions: internal/server/admin/session.go and
-- internal/server/store/admin_users.go.
use drip_ex.Base.{
  take, select, Bytes, Result, >>=-eq-ok, ok, err, ℕ, ◌+◌, ◌≡◌, refl, subst, ◌⊎◌, inl, inr, Bool,
  not, Option, none, some, List, ◌∷◌, arith,
}
use drip_ex.Store.Reservations.{StoreError}
use drip_ex.Store.Admins.{
  Admins, AdminUser, AdminSession, admin_session_row, is_session_of, create_admin_user,
  create_admin_session, touch_admin_login, update_admin_user, set_admin_password, delete_admin_user,
}
use drip_ex.Admin.Panel.{
  PanelRequest, Panel, Cookies, Reply, client_ip, issue_session, after_issue, welcome, first_issue,
  or_status,
}

pub or_status_ok :
    {A : Type 0} (status : ℕ) (r : Result StoreError A) (a : A)
    → or_status status r ≡ ok a
    → r ≡ ok a
or_status_ok status (err e) a h = cc
or_status_ok status (ok b) a h = cc

pub created_sessions :
    (fresh_id : Bytes) (now : ℕ) (u : AdminUser) (db db' : Admins) (user : AdminUser)
    → create_admin_user fresh_id now u db ≡ ok (db', user)
    → db'.sessions ≡ db.sessions
unfolding create_admin_user
created_sessions fresh_id now u db db' user e = ground arith

pub updated_sessions :
    (now : ℕ) (u : AdminUser) (db db' : Admins)
    → update_admin_user now u db ≡ ok db'
    → db'.sessions ≡ db.sessions
unfolding update_admin_user
updated_sessions now u db db' e = ground arith

pub password_sessions :
    (now : ℕ) (id hash : Bytes) (db db' : Admins)
    → set_admin_password now id hash db ≡ ok db'
    → db'.sessions ≡ db.sessions
unfolding set_admin_password
password_sessions now id hash db db' e = ground arith

pub removed_sessions :
    (id : Bytes) (db db' : Admins)
    → delete_admin_user id db ≡ ok db'
    → db'.sessions ≡ select (λ s. not (is_session_of id s)) db.sessions
unfolding delete_admin_user
removed_sessions id db db' e = ground arith

module _ (hash_token : Bytes → Bytes) (loopback : Bytes → Bool) where
  -- The sessions of `p'` are those of `p`, or one more that this call of `issue_session` makes.
  abbrev pub Opens :
      ℕ → Option (Bytes × Bytes) → PanelRequest → Bytes → Panel → List AdminSession → Type 0
  Opens now draw rq user_id p sessions =
      (sessions ≡ p.admins.sessions)
      ⊎ ((token csrf : Bytes) × (draw ≡ some (token, csrf))
          × (sessions
              ≡ admin_session_row now (hash_token token) user_id (now + p.session_ttl)
                  (client_ip rq.remote_addr) (take 256 rq.user_agent)
                ∷ p.admins.sessions))

  pub create-Opens :
      (now : ℕ) (id user_id : Bytes) (expires : ℕ) (ip agent : Bytes) (db db' : Admins)
      → create_admin_session now id user_id (some expires) ip agent db ≡ ok db'
      → db'.sessions ≡ admin_session_row now id user_id expires ip agent ∷ db.sessions
  unfolding create_admin_session
  create-Opens now id user_id expires ip agent db db' e = ground arith

  pub issue-Opens :
      (now : ℕ) (draw : Option (Bytes × Bytes)) (rq : PanelRequest) (user : AdminUser)
      (p p' : Panel) (c : Cookies)
      → issue_session hash_token loopback now draw rq user p ≡ ok (p', c)
      → Opens now draw rq user.id p p'.admins.sessions
  unfolding issue_session
  issue-Opens now none rq user p p' c e = cc
  issue-Opens now (some (token, csrf)) rq user p p' c e =
      let (admins, made, rest) =
        >>=-eq-ok
          (or_status 500 (
            create_admin_session now (hash_token token) user.id (some (now + p.session_ttl))
              (client_ip rq.remote_addr) (take 256 rq.user_agent) p.admins))
          _ e in
      let same : admins ≡ p'.admins = ground arith in
      subst (λ a. Opens now (some (token, csrf)) rq user.id p a.sessions) same
        (inr (
          token,
          csrf,
          refl,
          create-Opens now (hash_token token) user.id (now + p.session_ttl) _ _ p.admins admins
              (or_status_ok 500 _ admins made),
        ))

  pub after_issue-Opens :
      (now : ℕ) (draw : Option (Bytes × Bytes)) (rq : PanelRequest) (user : AdminUser) (p : Panel)
      (out : Reply (Panel × Cookies))
      → issue_session hash_token loopback now draw rq user p ≡ out
      → Opens now draw rq user.id p (after_issue now user p out).0.admins.sessions
        × Opens now draw rq user.id p (first_issue user p out).0.admins.sessions
  unfolding touch_admin_login
  after_issue-Opens now draw rq user p (err status) e = (inl refl, inl refl)
  after_issue-Opens now draw rq user p (ok (p', c)) e =
      let opens = issue-Opens now draw rq user p p' c e in (opens, opens)

  pub welcome-Opens :
      (now : ℕ) (draw : Option (Bytes × Bytes)) (rq : PanelRequest) (username : Bytes)
      (user : AdminUser) (p : Panel)
      → Opens now draw rq user.id p
          (welcome hash_token loopback now draw rq username user p).0.admins.sessions
  unfolding welcome
  welcome-Opens now draw rq username user p = (after_issue-Opens now draw rq user _ _ refl).0
