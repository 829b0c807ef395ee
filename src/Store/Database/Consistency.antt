-- ===== src/Store/Database/Consistency.antt =====
-- The database in order, and the writing calls of internal/server/store/accounts.go and clients.go, which
-- keep it so.
use drip_ex.Base.{
  map-NoClash_pairs, any, select, All, Bytes, str_eq, str_eq_iff, str_eq_refl, trim_space, ℤ, ltb_ℤ,
  NoClash, select-NoClash, All-map, All-weaken, All-select, any-All, All-units, any-map, any-select,
  map-NoClash, ok, pos, ℕ, ◌≡◌, refl, sym, subst, ◌∙◌, Bool, true, false, not, Option, none, some,
  List, ◌∷◌, map, arith,
}
use drip_ex.Store.Reservations.{Reservation, collides, refers}
use drip_ex.Store.Reservations.Uniqueness.{IsUnique, uniqueness_iff}
use drip_ex.Store.Database.{
  Account, Client, Database, is_account, is_client, accounts_clash, new_account, create_account,
  updated_account, takes_account_name, update_account, unbound, is_owned_by, is_reserved_by,
  drop_clients, delete_account, clients_clash, new_client, create_client, updated_client,
  takes_client_name, update_client, with_secret, rotate_client_secret, delete_client, seen,
  touch_client,
}

abbrev has_account : List Account → Bytes → Bool
has_account accounts id = any (is_account id) accounts

abbrev has_client : List Client → Bytes → Bool
has_client clients id = any (is_client id) clients

-- The account and the client of a reservation are there.
abbrev pub IsBacked : List Account → List Client → Reservation → Type 0
IsBacked accounts clients r =
    (any (is_account r.account_id) accounts ≡ true)
    × (refers (λ id. any (is_client id) clients) r.client_id ≡ true)

-- No two accounts share an id or a name, no two clients an id, or a name within an account, and no
-- two reservations an id, a subdomain or a port; every reference leads to a row; and no limit is
-- negative.
pub record IsConsistent (db : Database) : Type 0 where
  pub accounts : NoClash accounts_clash db.accounts
  pub limits : All (λ a. ltb_ℤ a.max_tunnels (pos 0) ≡ false) db.accounts
  pub clients : NoClash clients_clash db.clients
  pub owners : All (λ c. any (is_account c.account_id) db.accounts ≡ true) db.clients
  pub reservations : IsUnique db.reservations
  pub backed : All (IsBacked db.accounts db.clients) db.reservations

-- More accounts and clients back no fewer reservations.
refers_weaken :
    (known known' : Bytes → Bool) (client : Option Bytes)
    → ((id : Bytes) → known id ≡ true → known' id ≡ true)
    → refers known client ≡ true
    → refers known' client ≡ true
refers_weaken known known' none more h = refl
refers_weaken known known' (some id) more h = more id h

refers-unbound :
    (known : Bytes → Bool) (r : Reservation) → refers known (unbound known r).client_id ≡ true
refers-unbound known r = ground arith

collides-unbound :
    (known : Bytes → Bool) (r q : Reservation)
    → collides (unbound known r) (unbound known q) ≡ collides r q
unfolding collides
collides-unbound known r q = ground arith

unbound-IsUnique :
    (known : Bytes → Bool) (rows : List Reservation)
    → IsUnique rows
    → IsUnique (map (unbound known) rows)
unbound-IsUnique known rows u = (uniqueness_iff _).0 (
    map-NoClash (λ a. Unit) collides (unbound known) rows
      (λ a b p q h. collides-unbound known a b ∙ h) (All-units rows) ((uniqueness_iff rows).1 u))

pub select-IsUnique :
    (p : Reservation → Bool) (rows : List Reservation) → IsUnique rows → IsUnique (select p rows)
select-IsUnique p rows u =
    (uniqueness_iff _).0 (select-NoClash collides p rows ((uniqueness_iff rows).1 u))

-- Clients can go where the accounts of the others are there.
drop_clients-IsConsistent :
    (gone : Client → Bool) (db : Database)
    → NoClash accounts_clash db.accounts
    → All (λ a. ltb_ℤ a.max_tunnels (pos 0) ≡ false) db.accounts
    → NoClash clients_clash db.clients
    → All (λ c. gone c ≡ false → any (is_account c.account_id) db.accounts ≡ true) db.clients
    → IsUnique db.reservations
    → All (λ r. any (is_account r.account_id) db.accounts ≡ true) db.reservations
    → IsConsistent (drop_clients gone db)
unfolding drop_clients
drop_clients-IsConsistent gone db accounts limits clients owners unique backed = record {
  accounts = accounts;
  limits = limits;
  clients = select-NoClash clients_clash (λ c. not (gone c)) db.clients clients;
  owners = All-select _ _ (λ c. not (gone c)) db.clients (λ c h k. k (ground arith)) owners;
  reservations = unbound-IsUnique _ db.reservations unique;
  backed =
      All-map _ _ (unbound _) db.reservations (λ r h. (ground arith, refers-unbound _ r)) backed;
}

module _ (db db' : Database) (inv : IsConsistent db) where
  pub create_account-IsConsistent :
      (fresh_id : Bytes) (now : ℕ) (name : Bytes) (max_tunnels : ℤ) (a : Account)
      → create_account fresh_id now name max_tunnels db ≡ ok (db', a)
      → IsConsistent db'
  unfolding create_account
  create_account-IsConsistent fresh_id now name max_tunnels a e =
      let row = new_account fresh_id now name max_tunnels in
      let free : any (accounts_clash row) db.accounts ≡ false = ground arith in
      let limit : ltb_ℤ max_tunnels (pos 0) ≡ false = ground arith in
      let same : record db { accounts = row ∷ db.accounts } ≡ db' = ground arith in
      subst IsConsistent same (record {
        accounts = (free, inv.accounts);
        limits = (limit, inv.limits);
        clients = inv.clients;
        owners = All-weaken _ _ db.clients (λ c h. ground arith) inv.owners;
        reservations = inv.reservations;
        backed = All-weaken _ _ db.reservations (λ r (h, k). (ground arith, k)) inv.backed;
      })

  pub update_account-IsConsistent :
      (now : ℕ) (a : Account) → update_account now a db ≡ ok db' → IsConsistent db'
  unfolding update_account accounts_clash
  update_account-IsConsistent now a e =
      let free : any (takes_account_name a) db.accounts ≡ false = ground arith in
      let limit : ltb_ℤ a.max_tunnels (pos 0) ≡ false = ground arith in
      let same : record db { accounts = map (updated_account now a) db.accounts } ≡ db' =
        ground arith in
      let kept : (id : Bytes)
          → any (is_account id) (map (updated_account now a) db.accounts)
            ≡ any (is_account id) db.accounts =
        λ id. any-map (is_account id) (updated_account now a) db.accounts (λ b. ground arith) in
      subst IsConsistent same (record {
        accounts =
            map-NoClash _ accounts_clash (updated_account now a) db.accounts
              (λ b c p q h. ground (
                arith,
                str_eq_iff b.id a.id,
                str_eq_iff c.id a.id,
                str_eq_iff b.name a.name,
                str_eq_iff c.name a.name,
                str_eq_iff a.name b.name,
                str_eq_iff c.id b.id,
              ))
              (any-All (takes_account_name a) db.accounts free) inv.accounts;
        limits = All-map _ _ (updated_account now a) db.accounts (λ b h. ground arith) inv.limits;
        clients = inv.clients;
        owners = All-weaken _ _ db.clients (λ c h. kept c.account_id ∙ h) inv.owners;
        reservations = inv.reservations;
        backed = All-weaken _ _ db.reservations (λ r (h, k). (kept r.account_id ∙ h, k)) inv.backed;
      })

  pub delete_account-IsConsistent : (id : Bytes) → delete_account id db ≡ ok db' → IsConsistent db'
  unfolding delete_account
  delete_account-IsConsistent id e =
      let left = record db {
        accounts = select (λ a. not (is_account id a)) db.accounts;
        reservations = select (λ r. not (is_reserved_by id r)) db.reservations;
      } in
      let same : drop_clients (is_owned_by id) left ≡ db' = ground arith in
      let kept : (other : Bytes)
          → str_eq other id ≡ false
          → any (is_account other) left.accounts ≡ any (is_account other) db.accounts =
        λ other ne.
          any-select (is_account other) (λ a. not (is_account id a)) db.accounts
            (λ a h.
              ground (arith, str_eq_iff a.id other, str_eq_iff a.id id, str_eq_iff other id)) in
      subst IsConsistent same (
        drop_clients-IsConsistent (is_owned_by id) left
          (select-NoClash accounts_clash _ db.accounts inv.accounts)
          (All-select _ _ _ db.accounts (λ a h k. k) inv.limits) inv.clients
          (All-weaken _ _ db.clients (λ c h ne. kept c.account_id ne ∙ h) inv.owners)
          (select-IsUnique _ db.reservations inv.reservations)
          (All-select _ _ _ db.reservations (λ r ne h. kept r.account_id (ground arith) ∙ h.0)
            inv.backed))

  pub delete_client-IsConsistent : (id : Bytes) → delete_client id db ≡ ok db' → IsConsistent db'
  unfolding delete_client
  delete_client-IsConsistent id e =
      let same : drop_clients (is_client id) db ≡ db' = ground arith in
      subst IsConsistent same (
        drop_clients-IsConsistent (is_client id) db inv.accounts inv.limits inv.clients
          (All-weaken _ _ db.clients (λ c h ne. h) inv.owners) inv.reservations
          (All-weaken _ _ db.reservations (λ r h. h.0) inv.backed))

  pub create_client-IsConsistent :
      (now : ℕ) (c : Client) → create_client now c db ≡ ok db' → IsConsistent db'
  unfolding create_client
  create_client-IsConsistent now c e =
      let free : any (clients_clash (new_client now c)) db.clients ≡ false = ground arith in
      let owner : any (is_account c.account_id) db.accounts ≡ true = ground arith in
      let same : record db { clients = new_client now c ∷ db.clients } ≡ db' = ground arith in
      subst IsConsistent same (record {
        accounts = inv.accounts;
        limits = inv.limits;
        clients = (free, inv.clients);
        owners = (owner, inv.owners);
        reservations = inv.reservations;
        backed =
            All-weaken _ _ db.reservations
              (λ r (h, k). (h, refers_weaken _ _ r.client_id (λ id g. ground arith) k)) inv.backed;
      })

  -- A change of the clients' rows that keeps ids and accounts.
  change_clients-IsConsistent :
      (f : Client → Client)
      → ((c : Client) → ((f c).id ≡ c.id) × ((f c).account_id ≡ c.account_id))
      → NoClash clients_clash (map f db.clients)
      → IsConsistent (record db { clients = map f db.clients })
  change_clients-IsConsistent f fixed free = record {
    accounts = inv.accounts;
    limits = inv.limits;
    clients = free;
    owners =
        All-map _ _ f db.clients
          (λ c h. subst (λ a. any (is_account a) db.accounts ≡ true) (sym (fixed c).1) h)
          inv.owners;
    reservations = inv.reservations;
    backed =
        All-weaken _ _ db.reservations
          (λ r (h, k). (
            h,
            refers_weaken _ _ r.client_id
                (λ id g. any-map (is_client id) f db.clients (λ c. rw (fixed c).0 refl) ∙ g) k,
          ))
          inv.backed;
  }

  pub update_client-IsConsistent :
      (now : ℕ) (c : Client) → update_client now c db ≡ ok db' → IsConsistent db'
  unfolding update_client clients_clash
  update_client-IsConsistent now c e =
      let free : any (λ row. any (takes_client_name c row) db.clients) db.clients ≡ false =
        ground arith in
      let same : record db { clients = map (updated_client now c) db.clients } ≡ db' =
        ground arith in
      subst IsConsistent same (
        change_clients-IsConsistent (updated_client now c) (λ d. (ground arith, ground arith))
          (map-NoClash_pairs (takes_client_name c) clients_clash (updated_client now c) db.clients
            (λ a b p q h. ground (
              arith,
              str_eq_iff a.id c.id,
              str_eq_iff b.id c.id,
              str_eq_iff b.id a.id,
              str_eq_iff a.account_id b.account_id,
              str_eq_iff b.account_id a.account_id,
              str_eq_iff a.name (trim_space c.name),
              str_eq_iff b.name (trim_space c.name),
              str_eq_iff b.name a.name,
              str_eq_iff (trim_space c.name) a.name,
              str_eq_refl (trim_space c.name),
            ))
            free inv.clients))

  pub with_secret-IsConsistent :
      (now : ℕ) (id secret_hash : Bytes)
      → rotate_client_secret now id secret_hash db ≡ ok db'
      → IsConsistent db'
  unfolding rotate_client_secret clients_clash
  with_secret-IsConsistent now id secret_hash e =
      let same : record db { clients = map (with_secret now id secret_hash) db.clients } ≡ db' =
        ground arith in
      subst IsConsistent same (
        change_clients-IsConsistent (with_secret now id secret_hash)
          (λ d. (ground arith, ground arith))
          (map-NoClash _ clients_clash _ db.clients (λ a b p q h. ground arith)
            (All-units db.clients) inv.clients))

  pub touch_client-IsConsistent :
      (now : ℕ) (id remote_ip : Bytes) → IsConsistent (touch_client now id remote_ip db)
  unfolding touch_client clients_clash
  touch_client-IsConsistent now id remote_ip =
      change_clients-IsConsistent (seen now id remote_ip) (λ d. (ground arith, ground arith))
        (map-NoClash _ clients_clash _ db.clients (λ a b p q h. ground arith) (All-units db.clients)
          inv.clients)

  -- New rows in the table of reservations.
  pub change_reservations-IsConsistent :
      (rows : List Reservation)
      → IsUnique rows
      → All (IsBacked db.accounts db.clients) rows
      → IsConsistent (record db { reservations = rows })
  change_reservations-IsConsistent rows unique backed = record {
    accounts = inv.accounts;
    limits = inv.limits;
    clients = inv.clients;
    owners = inv.owners;
    reservations = unique;
    backed = backed;
  }
