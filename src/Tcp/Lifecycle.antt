-- ===== src/Tcp/Lifecycle.antt =====
-- internal/server/tcp/lifecycle_manager.go: what a connection holds, and its release when the
-- connection ends. The sockets, the proxy and the stream session that are closed on the way are
-- left out; the table of connection groups is an argument.
pub mod Restored
use drip_ex.Base.{
  ltb, leb, ◌==◌, if◌then◌else◌, ==_iff, Bool-cases, and-eq-true, Option-cases, is_some, or_default,
  length, get_or, set, take, drop, replicate, all, any, find?, select, All, length-append,
  length-set, get_or-set_self, get_or-set_ne, take-length_append, drop-length_append, Bytes, codes,
  str_eq, str_eq_iff, str_eq_refl, is_empty, is_empty_ne, ne_is_empty, is_upper, is_digit, is_space,
  lower_byte, upper_byte, to_lower, to_upper, trim_left, trim_space, strip_prefix, contains_byte,
  equal_fold, Map, lookup, insert, delete, lookup-insert, lookup-delete, Distinct, insert-Distinct,
  delete-Distinct, delete_absent, count, count-insert, count-replace, count-delete, tally,
  increment, decrement, tally-increment, tally-decrement, decrement-increment, Result, refuse_if,
  ◌>>=◌, ◌>>◌, >>=-eq-ok, ℤ, pos_part, neg_part, ◌≤ℤ◌, ltb_ℤ, NoClash, select-NoClash, All-map,
  All-weaken, All-select, any-All, All-any, All-both, All-units, any-map, any-select, map-NoClash,
  map-NoClash_pairs, ok, err, pos, negsuc, ℕ, zero, suc, ◌+◌, ◌-◌, ◌*◌, ◌/◌, ◌%◌, ◌^◌, ◌≤◌, ◌<◌,
  min, bit_xor, String, ◌≡◌, refl, sym, ap, subst, ◌∙◌, ◌≢◌, ◌↔◌, ◌⊎◌, inl, inr, Bool, true, false,
  not, ◌&&◌, ◌||◌, Option, none, some, List, [], ◌∷◌, ◌++◌, map, arith, ℕ_discrete,
}
use drip_ex.Tunnel.Manager.{Manager, unregister}
use drip_ex.Store.Sessions.{SessionRow, delete_session}
use drip_ex.Tcp.Ports.{PortAllocator}
use drip_ex.Tcp.Registration.{RegistrationHandler, RegistrationResult, give_back}

-- The fields of `ConnectionLifecycleManager` that name what is to be given back.
pub record Lifecycle : Type 0 where
  pub port : ℕ
  pub subdomain : Bytes
  pub tunnel_id : Bytes
  pub session_id : Bytes
  -- `once` has run.
  pub closed : Bool

abbrev pub new_lifecycle : Lifecycle
new_lifecycle = record { port = 0; subdomain = []; tunnel_id = []; session_id = []; closed = false }

-- What the connections share.
pub record Shared (G : Type 0) : Type 0 where
  pub manager : Manager
  -- The next three are `none` where the source has nil.
  pub port_alloc : Option PortAllocator
  pub sessions : Option (List SessionRow)
  pub groups : Option G

unfoldable pub set_port_allocation : ℕ → Lifecycle → Lifecycle
set_port_allocation port clm = record clm { port = port }

unfoldable pub set_tunnel_registration : Bytes → Bytes → Lifecycle → Lifecycle
set_tunnel_registration subdomain tunnel_id clm = record clm {
  subdomain = subdomain;
  tunnel_id = tunnel_id;
}

unfoldable pub set_session_record : Bytes → Lifecycle → Lifecycle
set_session_record session_id clm = record clm { session_id = session_id }

-- What `handleRegister` passes on after a registration, before any group is made.
unfoldable pub set_registration : RegistrationResult → Lifecycle → Lifecycle
unfolding set_port_allocation set_tunnel_registration set_session_record
set_registration out clm =
    set_session_record out.session_id
      (set_tunnel_registration out.subdomain [] (set_port_allocation out.port clm))

module _ {G : Type 0} (remove_group : Bytes → G → G) where
  -- The session's row goes before the name does.
  abbrev drop_session : Bytes → Option (List SessionRow) → Option (List SessionRow)
  drop_session id none = none
  drop_session id (some rows) = if is_empty id then some rows else some (delete_session id rows)

  abbrev drop_group : Bytes → Option G → Option G
  drop_group tunnel_id none = none
  drop_group tunnel_id (some groups) =
      if is_empty tunnel_id then some groups else some (remove_group tunnel_id groups)

  unfoldable pub release_all : Lifecycle → Shared G → Shared G
  release_all clm s = record {
    manager = if is_empty clm.subdomain then s.manager else unregister clm.subdomain s.manager;
    port_alloc = give_back clm.port s.port_alloc;
    sessions = drop_session clm.session_id s.sessions;
    groups = if is_empty clm.subdomain then s.groups else drop_group clm.tunnel_id s.groups;
  }

  -- Only the first call does anything.
  unfoldable pub close_connection : Lifecycle × Shared G → Lifecycle × Shared G
  close_connection (clm, s) =
      if clm.closed then (clm, s) else (record clm { closed = true }, release_all clm s)
