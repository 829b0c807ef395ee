-- ===== src/Tcp/Groups.antt =====
-- internal/server/tcp/connection_group.go: the sessions of a tunnel and the choice of one for a new
-- stream. A session is one of the library yamux, and what it answers is an argument; so are the
-- moments at which the group is found to be stopped. The ticker of the heartbeat is left out.
pub mod Heap
pub mod Chosen
use drip_ex.Base.{
  ltb, leb, ◌==◌, if◌then◌else◌, ==_iff, Bool-cases, and-eq-true, Option-cases, is_some, or_default,
  length, get_or, set, take, drop, replicate, all, any, find?, select, All, length-append,
  length-set, get_or-set_self, get_or-set_ne, take-length_append, drop-length_append, Bytes, codes,
  str_eq, str_eq_iff, str_eq_refl, is_empty, is_empty_ne, ne_is_empty, is_upper, is_digit, is_space,
  lower_byte, upper_byte, to_lower, to_upper, trim_left, trim_space, strip_prefix, contains_byte,
  equal_fold, Map, lookup, insert, delete, lookup-insert, lookup-delete, Distinct, insert-Distinct,
  delete-Distinct, delete_absent, count, count-insert, count-replace, count-delete, tally,
  increment, decrement, tally-increment, tally-decrement, decrement-increment, Result, refuse_if,
  ◌>>=◌, ◌>>◌, >>=-eq-ok, ℤ, pos_part, neg_part, ◌≤ℤ◌, ltb_ℤ, NoClash, select-NoClash, All-map,
  All-weaken, All-select, any-All, All-any, All-both, All-units, any-map, any-select, map-NoClash,
  map-NoClash_pairs, ok, err, pos, negsuc, ℕ, zero, suc, ◌+◌, ◌-◌, ◌*◌, ◌/◌, ◌%◌, ◌^◌, ◌≤◌, ◌<◌,
  min, bit_xor, String, ◌≡◌, refl, sym, ap, subst, ◌∙◌, ◌≢◌, ◌↔◌, ◌⊎◌, inl, inr, Bool, true, false,
  not, ◌&&◌, ◌||◌, Option, none, some, List, [], ◌∷◌, ◌++◌, map, arith, ℕ_discrete,
}

abbrev pub primary : Bytes
primary = codes "primary"

abbrev pub max_streams_per_session : ℕ
max_streams_per_session = 256

-- `fault` is an error of yamux.
pub data OpenError (F : Type 0) : Type 0 where
  group_closed at_capacity : OpenError F
  fault : F → OpenError F

pub record ConnectionGroup (S : Type 0) : Type 0 where
  pub sessions : Map S
  pub last_activity : ℕ
  pub stopped : Bool
  pub heartbeat_started : Bool

-- `failureCount[id]` after a ping, and whether the session is removed.
unfoldable pub count_failure : Bytes → ℕ → ℕ × Bool
count_failure id failures =
    if leb 3 (failures + 1) then (0, not (str_eq id primary)) else (failures + 1, false)

-- What a session answers in an attempt: when the heap is built, when its turn comes, and after
-- a stream could not be opened.
pub record Answers (F Stream : Type 0) : Type 0 where
  pub closed_before : Bool
  pub streams : ℕ
  pub closed : Bool
  pub num_streams : ℕ
  pub opened : Result F Stream
  pub closed_after : Bool

-- What the loop over the heap leaves: a stream and its session, or the last error, if a session
-- was below its cap.
pub data Found (F Stream : Type 0) : Type 0 where
  found : Bytes → Stream → Found F Stream
  none_opened : Option F → Found F Stream

abbrev pub max_retries : ℕ
max_retries = 3

module _ {S : Type 0} where
  unfoldable pub new_connection_group : ℕ → ConnectionGroup S
  new_connection_group now = record {
    sessions = [];
    last_activity = now;
    stopped = false;
    heartbeat_started = false;
  }

  unfoldable pub add_session : ℕ → Bytes → S → ConnectionGroup S → ConnectionGroup S
  add_session now id session g = if is_empty id then g else record g {
    sessions = insert id session g.sessions;
    last_activity = now;
    heartbeat_started = true;
  }

  unfoldable pub remove_session : Bytes → ConnectionGroup S → ConnectionGroup S
  remove_session id g = if is_empty id then g else record g { sessions = delete id g.sessions }

  unfoldable pub close_group : ConnectionGroup S → ConnectionGroup S
  close_group g = if g.stopped then g else record g { sessions = []; stopped = true }

  unfoldable pub is_stale : ℕ → ℕ → ConnectionGroup S → Bool
  is_stale now timeout g = ltb timeout (now - g.last_activity)

  unfoldable pub handle_ping_result :
      ℕ → Bytes → Bool → ConnectionGroup S × Map ℕ → ConnectionGroup S × Map ℕ
  unfolding count_failure
  handle_ping_result now id failed (g, failures) =
      let (n, removed) = count_failure id (tally id failures) in
      if failed
      then (if removed
          then (remove_session id g, delete id failures)
          else (g, insert id n failures))
      else (record g { last_activity = now }, insert id 0 failures)

  module _ {F Stream : Type 0} (look : ℕ → S → Answers F Stream) where
    -- Fewer streams come first, as the heap has it.
    unfoldable pub push : ℕ → (Bytes × S) → List (Bytes × S) → List (Bytes × S)
    push i e [] = e ∷ []
    push i e (f ∷ heap) =
        let later = f ∷ push i e heap in
        if leb (look i e.1).streams (look i f.1).streams then e ∷ f ∷ heap else later

    unfoldable pub build_session_heap : ℕ → Bool → Map S → List (Bytes × S)
    unfolding push
    build_session_heap i include_primary [] = []
    build_session_heap i include_primary ((id, s) ∷ sessions) =
        let rest = build_session_heap i include_primary sessions in
        let pushed = push i (id, s) rest in
        if (look i s).closed_before
        then rest
        else if str_eq id primary && not include_primary
        then rest
        else pushed

    unfoldable pub delete_closed_sessions : ℕ → Map S → Map S
    delete_closed_sessions i [] = []
    delete_closed_sessions i ((id, s) ∷ sessions) =
        let rest = delete_closed_sessions i sessions in
        if (look i s).closed_after then rest else (id, s) ∷ rest

    abbrev pub opened_or :
        Bytes → Result F Stream → (F → Map S × Found F Stream) → Map S → Map S × Found F Stream
    opened_or id (ok stream) next sessions = (sessions, found id stream)
    opened_or id (err e) next sessions = next e

    unfoldable pub try_heap : ℕ → List (Bytes × S) → Option F → Map S → Map S × Found F Stream
    unfolding delete_closed_sessions
    try_heap i [] last sessions = (sessions, none_opened last)
    try_heap i ((id, s) ∷ heap) last sessions =
        let a = look i s in
        let skip = try_heap i heap last sessions in
        let next = λ (e : F).
          try_heap i heap (some e)
            (if a.closed_after then delete_closed_sessions i sessions else sessions) in
        if a.closed
        then skip
        else if leb max_streams_per_session a.num_streams
        then skip
        else opened_or id a.opened next sessions

    -- The primary session is taken only where there is no other.
    abbrev pub or_primary : ℕ → Map S → List (Bytes × S) → List (Bytes × S)
    or_primary i sessions [] = build_session_heap i true sessions
    or_primary i sessions (e ∷ heap) = e ∷ heap

    unfoldable pub session_heap : ℕ → Map S → List (Bytes × S)
    unfolding build_session_heap
    session_heap i sessions = or_primary i sessions (build_session_heap i false sessions)

    abbrev pub last_error : Option F → OpenError F
    last_error none = at_capacity
    last_error (some e) = fault e

    abbrev pub attempted :
        Map S × Found F Stream
        → (Map S → OpenError F → Map S × Result (OpenError F) (Bytes × Stream))
        → Map S × Result (OpenError F) (Bytes × Stream)
    attempted (sessions, found id stream) retry = (sessions, ok (id, stream))
    attempted (sessions, none_opened last) retry = retry sessions (last_error last)

    abbrev pub if_any :
        ℕ
        → Map S
        → List (Bytes × S)
        → (Map S → OpenError F → Map S × Result (OpenError F) (Bytes × Stream))
        → Map S × Result (OpenError F) (Bytes × Stream)
    if_any i sessions [] retry = (sessions, err group_closed)
    if_any i sessions (e ∷ heap) retry = attempted (try_heap i (e ∷ heap) none sessions) retry

    -- `n` attempts are left, and the next one is attempt `i`; the group is found stopped before an
    -- attempt or in the pause after it.
    unfoldable pub try_open :
        (ℕ → Bool)
        → (ℕ → Bool)
        → ℕ
        → ℕ
        → OpenError F
        → Map S
        → Map S × Result (OpenError F) (Bytes × Stream)
    unfolding session_heap try_heap
    try_open stop_before stop_after zero i last sessions = (sessions, err last)
    try_open stop_before stop_after (suc n) i last sessions =
        let retry = λ (left : Map S) (e : OpenError F).
          let again = try_open stop_before stop_after n (i + 1) e left in
          if ltb 0 n && stop_after i then (left, err group_closed) else again in
        let tried = if_any i sessions (session_heap i sessions) retry in
        if stop_before i then (sessions, err group_closed) else tried

    abbrev pub with_sessions :
        ConnectionGroup S
        → Map S × Result (OpenError F) (Bytes × Stream)
        → ConnectionGroup S × Result (OpenError F) (Bytes × Stream)
    with_sessions g (sessions, out) = (record g { sessions = sessions }, out)

    unfoldable pub open_stream :
        (ℕ → Bool)
        → (ℕ → Bool)
        → ConnectionGroup S
        → ConnectionGroup S × Result (OpenError F) (Bytes × Stream)
    unfolding try_open
    open_stream stop_before stop_after g = with_sessions g (
        try_open (λ i. g.stopped || stop_before i) (λ i. g.stopped || stop_after i) max_retries 0
          at_capacity g.sessions)
