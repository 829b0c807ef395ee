-- ===== src/Admin/Panel/Issued.antt =====
-- Where the sessions of the panel come from: internal/server/admin/session.go and api_session.go.
use drip_ex.Base.{
  if◌then◌else◌, ltb, or_default, if_cases, take, find?, select, All, Bytes, str_eq_iff, is_empty,
  Result, All-weaken, All-select, All-units, find-All, ok, err, ℕ, ◌+◌, ◌*◌, ◌≤◌, ◌≡◌, refl, sym,
  ap, subst, ◌∙◌, ◌⊎◌, inl, inr, Bool, true, false, not, Option, none, some, List, [], ◌∷◌, arith,
}
use drip_ex.Store.Reservations.{StoreError, trimmed}
use drip_ex.Store.Admins.{
  Admins, AdminUser, AdminSession, admin_session_row, is_expired, is_user, is_admin_session,
  is_session_of, get_admin_user, get_admin_session, get_admin_user_by_username, count_admin_users,
  create_admin_user, update_admin_user, set_admin_password, delete_admin_user, delete_admin_session,
  purge_expired_admin_sessions,
}
use drip_ex.Store.Admins.Integrity.{or_same}
use drip_ex.Auth.Passwords.{Crypto, hash_password}
use drip_ex.Admin.LoginLimiter.{allow}
use drip_ex.Admin.Panel.{
  without_session, PanelRequest, Panel, Cookies, Reply, client_ip, user_key, first_user, founded,
  password_matches, current_user, authed, welcome, sign_in, handle_login, found_deployment,
  hashed_or_failed, handle_bootstrap, signed_out, if_passed, handle_logout, sweep,
}
use drip_ex.Admin.Panel.History.{
  Event, logs_in, bootstraps, logs_out, sweeps, changes, renews_password, removes, step,
  panel_after, Grants, ends, IsGranted,
}
use drip_ex.Admin.Panel.Opened.{
  created_sessions, updated_sessions, password_sessions, removed_sessions, after_issue-Opens,
  welcome-Opens,
}

module _ (hash_token : Bytes → Bytes) (loopback : Bytes → Bool) where
  module _ (crypto : Crypto) (runes : Bytes → ℕ) where
    -- The sessions after an event that may grant one.
    abbrev Grows : Event → Panel → List AdminSession → Type 0
    Grows e p sessions =
        (sessions ≡ p.admins.sessions)
        ⊎ ((s : AdminSession) × Grants hash_token loopback crypto runes e p s
            × (sessions ≡ s ∷ p.admins.sessions))

    module _ (now : ℕ) (draw : Option (Bytes × Bytes)) (rq : PanelRequest) (name password : Bytes)
        (p : Panel) (by_ip : allow now (client_ip rq.remote_addr) p.limiter ≡ true)
        (by_name : allow now (user_key (trimmed name)) p.limiter ≡ true) where
      welcome-Grows :
          (user : AdminUser)
          → get_admin_user_by_username p.admins (trimmed name) ≡ ok user
          → password_matches crypto password user.password_hash ≡ true
          → user.enabled ≡ true
          → Grows
              (logs_in now draw rq name password)
              p
              (welcome hash_token loopback now draw rq (trimmed name) user p).0.admins.sessions
      welcome-Grows user found right enabled =
          elim (welcome-Opens hash_token loopback now draw rq (trimmed name) user p) [
            | inl same ↦ inl same
            | inr (token, csrf, drawn, more) ↦
                inr
                  (_, (user, token, csrf, found, right, enabled, by_ip, by_name, drawn, refl), more)
          ]

      sign_in-Grows :
          (found : Result StoreError AdminUser)
          → get_admin_user_by_username p.admins (trimmed name) ≡ found
          → Grows
              (logs_in now draw rq name password)
              p
              (sign_in hash_token loopback crypto now draw rq
                (trimmed name)
                password
                p
                found).0.admins.sessions
      sign_in-Grows (err e) here = inl refl
      sign_in-Grows (ok user) here =
          if_cases Grown (not (password_matches crypto password user.password_hash)) _ _
            (λ wrong. inl refl)
            (λ right.
              if_cases Grown (not user.enabled) _ _ (λ disabled. inl refl)
                (λ enabled. welcome-Grows user here (ground arith) (ground arith)))
        where
          Grown : Panel × Reply (AdminUser × Cookies) → Type 0
          Grown out = Grows (logs_in now draw rq name password) p out.0.admins.sessions

    login-Grows :
        (now : ℕ) (draw : Option (Bytes × Bytes)) (rq : PanelRequest) (name password : Bytes)
        (p : Panel)
        → Grows
            (logs_in now draw rq name password)
            p
            (handle_login hash_token loopback crypto now draw rq name password p).0.admins.sessions
    unfolding handle_login
    login-Grows now draw rq name password p =
        if_cases
          (λ (out : Panel × Reply (AdminUser × Cookies)).
            Grows (logs_in now draw rq name password) p out.0.admins.sessions)
          _ _ _ (λ shut. inl refl)
          (λ open_keys.
            sign_in-Grows now draw rq name password p (ground arith) (ground arith) _ refl)

    bootstrap-Grows :
        (now : ℕ) (fresh_id account_id salt : Bytes) (draw : Option (Bytes × Bytes))
        (rq : PanelRequest) (name password : Bytes) (p : Panel)
        → Grows
            (bootstraps now fresh_id account_id salt draw rq name password)
            p
            (handle_bootstrap hash_token loopback crypto runes now fresh_id account_id salt draw rq
              name password p).0.admins.sessions
    unfolding handle_bootstrap
    bootstrap-Grows now fresh_id account_id salt draw rq name password p =
        if_cases Grown (ltb 0 (count_admin_users p.admins)) _ _ (λ taken. inl refl)
          (λ first.
            if_cases Grown (ltb (runes password) 12) _ _ (λ short. inl refl)
              (λ long. hashed-Grown (ground arith) long _ refl))
      where
        event : Event
        event = bootstraps now fresh_id account_id salt draw rq name password

        Grown : Panel × Reply (AdminUser × Cookies) → Type 0
        Grown out = Grows event p out.0.admins.sessions

        founded-Grown :
            (hash : Bytes)
            → count_admin_users p.admins ≡ 0
            → ltb (runes password) 12 ≡ false
            → hash_password crypto salt password ≡ some hash
            → (made : Result StoreError (Admins × AdminUser))
            → create_admin_user fresh_id now (first_user name hash) p.admins ≡ made
            → Grown (found_deployment hash_token loopback crypto now account_id draw rq p made)
        founded-Grown hash first long h (err e) here = inl refl
        founded-Grown hash first long h (ok (admins, user)) here =
            let same =
              created_sessions fresh_id now (first_user name hash) p.admins admins user here in
            elim (after_issue-Opens hash_token loopback now draw rq user
              (founded now account_id admins p) _ refl).1 [
                | inl kept ↦ inl (kept ∙ same)
                | inr (token, csrf, drawn, more) ↦ inr (
                  admin_session_row now (hash_token token) user.id (now + p.session_ttl)
                      (client_ip rq.remote_addr) (take 256 rq.user_agent),
                  (admins, user, hash, token, csrf, first, long, h, here, drawn, refl),
                  more
                      ∙ ap
                          (◌∷◌ (
                            admin_session_row now (hash_token token) user.id (now + p.session_ttl)
                              (client_ip rq.remote_addr) (take 256 rq.user_agent)))
                          same,
                )
              ]

        hashed-Grown :
            count_admin_users p.admins ≡ 0
            → ltb (runes password) 12 ≡ false
            → (hash : Option Bytes) → hash_password crypto salt password ≡ hash
            → Grown (
                hashed_or_failed hash_token loopback crypto now fresh_id account_id draw rq name p
                  hash)
        hashed-Grown first long none h = inl refl
        hashed-Grown first long (some hash) h = founded-Grown hash first long h _ refl

    module _ (history : List Event) (start : Panel) where
      abbrev Granted : List Event → AdminSession → Type 0
      Granted events = IsGranted hash_token loopback crypto runes events start

      abbrev there : Panel
      there = panel_after hash_token loopback crypto runes history start

      grow-Granted :
          (e : Event) (sessions : List AdminSession)
          → ((s : AdminSession) → ends hash_token loopback crypto runes e there s ≡ false)
          → Grows e there sessions
          → All (Granted history) there.admins.sessions
          → All (Granted (e ∷ history)) sessions
      grow-Granted e sessions lasting (inl same) old =
          subst (All (Granted (e ∷ history))) (sym same)
            (All-weaken _ _ there.admins.sessions (λ s h. inr (h, lasting s)) old)
      grow-Granted e sessions lasting (inr (s, grants, more)) old =
          subst (All (Granted (e ∷ history))) (sym more)
            (inl grants, All-weaken _ _ there.admins.sessions (λ q h. inr (h, lasting q)) old)

      -- An event that leaves out sessions leaves out those that it ends.
      shrink-Granted :
          (e : Event) (kept : AdminSession → Bool)
          → ((s : AdminSession)
              → kept s ≡ true
              → ends hash_token loopback crypto runes e there s ≡ false)
          → All (Granted history) there.admins.sessions
          → All (Granted (e ∷ history)) (select kept there.admins.sessions)
      shrink-Granted e kept lasting old =
          All-select _ _ kept there.admins.sessions (λ s k h. inr (h, lasting s k)) old

      keep-Granted :
          (e : Event) (sessions : List AdminSession)
          → ((s : AdminSession) → ends hash_token loopback crypto runes e there s ≡ false)
          → sessions ≡ there.admins.sessions
          → All (Granted history) there.admins.sessions
          → All (Granted (e ∷ history)) sessions
      keep-Granted e sessions lasting same = grow-Granted e sessions lasting (inl same)

      logout-Granted :
          (now : ℕ) (runs : Bool) (rq : PanelRequest)
          → All (Granted history) there.admins.sessions
          → All
              (Granted (logs_out now runs rq ∷ history))
              (handle_logout hash_token loopback now runs rq there).0.admins.sessions
      unfolding handle_logout ends delete_admin_session
      logout-Granted now runs rq old = by_answer (authed hash_token loopback now rq there) refl
        where
          by_cookie :
              (cookie : Bytes)
              → or_default [] rq.session_cookie ≡ cookie
              → All
                  (Granted (logs_out now runs rq ∷ history))
                  (signed_out hash_token loopback runs rq there).admins.sessions
          by_cookie [] e =
              rw e (
                keep-Granted (logs_out now runs rq) _ (λ s. ground (arith, ap is_empty e)) refl old)
          by_cookie (c ∷ cookie) e = rw e (by_store runs refl)
            where
              by_store :
                  (r : Bool)
                  → runs ≡ r
                  → All
                      (Granted (logs_out now runs rq ∷ history))
                      (without_session there (
                        if r
                        then some (delete_admin_session (hash_token (c ∷ cookie)) there.admins)
                        else none)).admins.sessions
              by_store false f = keep-Granted (logs_out now runs rq) _ (λ s. rw f refl) refl old
              by_store true f =
                  shrink-Granted (logs_out now runs rq)
                    (λ s. not (is_admin_session (hash_token (c ∷ cookie)) s)) (λ s k. ground arith)
                    old

          by_answer :
              (out : Reply AdminUser)
              → authed hash_token loopback now rq there ≡ out
              → All
                  (Granted (logs_out now runs rq ∷ history))
                  (if_passed there
                    (signed_out hash_token loopback runs rq there)
                    out).0.admins.sessions
          by_answer (err status) e =
              keep-Granted (logs_out now runs rq) _ (λ s. rw e (ground arith)) refl old
          by_answer (ok user) e = by_cookie _ refl

      removes-Granted :
          (id : Bytes)
          → All (Granted history) there.admins.sessions
          → (out : Result StoreError Admins) → delete_admin_user id there.admins ≡ out
          → All (Granted (removes id ∷ history)) (or_same there.admins out).sessions
      unfolding ends
      removes-Granted id old (err e) gone = keep-Granted (removes id) _ (λ s. rw gone refl) refl old
      removes-Granted id old (ok db') gone =
          subst (All (Granted (removes id ∷ history))) (sym (removed_sessions id _ _ gone)) (
            shrink-Granted (removes id) (λ s. not (is_session_of id s))
              (λ s k. rw gone (ground arith)) old)

      store_user_calls :
          (db : Admins) (out : Result StoreError Admins)
          → ((db' : Admins) → out ≡ ok db' → db'.sessions ≡ db.sessions)
          → (or_same db out).sessions ≡ db.sessions
      store_user_calls db (err e) same = refl
      store_user_calls db (ok db') same = same db' refl

      step-Granted :
          (e : Event)
          → All (Granted history) there.admins.sessions
          → All
              (Granted (e ∷ history))
              (step hash_token loopback crypto runes e there).admins.sessions
      unfolding step ends sweep purge_expired_admin_sessions update_admin_user set_admin_password
      step-Granted (logs_in now draw rq name password) old =
          grow-Granted (logs_in now draw rq name password) _ (λ s. refl)
            (login-Grows now draw rq name password there) old
      step-Granted (bootstraps now fresh_id account_id salt draw rq name password) old =
          grow-Granted (bootstraps now fresh_id account_id salt draw rq name password) _ (λ s. refl)
            (bootstrap-Grows now fresh_id account_id salt draw rq name password there) old
      step-Granted (logs_out now runs rq) old = logout-Granted now runs rq old
      step-Granted (sweeps now) old = shrink-Granted (sweeps now) _ (λ s k. ground arith) old
      step-Granted (changes now user) old =
          keep-Granted (changes now user) _ (λ s. refl)
            (store_user_calls there.admins _ (updated_sessions now user there.admins)) old
      step-Granted (renews_password now id hash) old =
          keep-Granted (renews_password now id hash) _ (λ s. refl)
            (store_user_calls there.admins _ (password_sessions now id hash there.admins)) old
      step-Granted (removes id) old = removes-Granted id old _ refl

    -- Every session of the panel was granted in its history, and not ended since.
    sessions-Granted :
        (history : List Event) (start : Panel)
        → start.admins.sessions ≡ []
        → All
            (IsGranted hash_token loopback crypto runes history start)
            (panel_after hash_token loopback crypto runes history start).admins.sessions
    unfolding panel_after
    sessions-Granted [] start none_yet = rw none_yet tt
    sessions-Granted (e ∷ history) start none_yet =
        step-Granted history start e (sessions-Granted history start none_yet)

    -- What a request shows that `current_user` accepts.
    accepted_parts :
        (now : ℕ) (rq : PanelRequest) (p : Panel) (u : AdminUser) (s : AdminSession)
        → current_user hash_token loopback now rq p ≡ ok (u, s)
        → (find? (is_admin_session (hash_token (or_default [] rq.session_cookie))) p.admins.sessions
            ≡ some s)
          × (find? (is_user s.user_id) p.admins.users ≡ some u)
          × (u.enabled ≡ true)
          × (is_expired now s ≡ false)
    unfolding current_user get_admin_session get_admin_user
    accepted_parts now rq p u s e = ground arith

    module _ (history : List Event) (start : Panel) (none_yet : start.admins.sessions ≡ [])
        (now : ℕ) (rq : PanelRequest) (u : AdminUser) (s : AdminSession)
        (accepted : current_user hash_token loopback now rq
            (panel_after hash_token loopback crypto runes history start)
          ≡ ok (u, s)) where
      -- Where no session stands at the start, whoever a request is let in as is enabled at that
      -- moment, and the session that its cookie names was granted to them: they signed in under
      -- their name with the right password while enabled and not throttled, or they were founded as
      -- the first operator, and the random token drawn then hashes as the cookie does. The session
      -- has not expired, and no accepted sign-out
      -- with its cookie whose deletion the store ran, no removal of the operator and no purge
      -- of its time has come since.
      pub current_user-IsGranted :
          IsGranted hash_token loopback crypto runes history start s
          × (s.id ≡ hash_token (or_default [] rq.session_cookie))
          × (u.id ≡ s.user_id)
          × (u.enabled ≡ true)
          × (now ≤ s.expires_at * 1000000000)
      current_user-IsGranted =
          let p = panel_after hash_token loopback crypto runes history start in
          let (session, user, enabled, live) = accepted_parts now rq p u s accepted in
          let cookie = hash_token (or_default [] rq.session_cookie) in
          let (granted, named) =
            find-All (IsGranted hash_token loopback crypto runes history start)
              (is_admin_session cookie) p.admins.sessions s
              (sessions-Granted history start none_yet) session in
          let (_, owner) =
            find-All (λ v. Unit {0}) (is_user s.user_id) p.admins.users u (All-units _) user in
          (
            granted,
            (str_eq_iff s.id cookie).0 named,
            (str_eq_iff u.id s.user_id).0 owner,
            enabled,
            ground arith,
          )
