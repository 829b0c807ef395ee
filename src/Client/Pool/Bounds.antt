-- ===== src/Client/Pool/Bounds.antt =====
-- The client never keeps more sessions than it may, whatever the order of its handshakes:
-- internal/client/tcp/pool_session.go and session_scaler.go.
use drip_ex.Base.{
  ltb, ◌==◌, if◌then◌else◌, Option-cases, if_cases, length, take, select, Bytes, str_eq, ℤ, ℕ, ◌+◌,
  ◌-◌, ◌*◌, ◌≤◌, ◌≡◌, refl, ap, ◌∙◌, inl, inr, Bool, not, ◌&&◌, Option, none, some, List, [], ◌∷◌,
  arith,
}
use drip_ex.Client.Pool.{
  SessionHandle, Pool, max_of, min_of, new_pool, session_count, reserve_session_slot,
  release_session_slot, settle_data_session, add_data_session, add_data_sessions,
  remove_data_session, idle_candidate, without_candidate, remove_idle_session, rescaled, started,
  burst, scale_up, scale_down, rescale, tick, connect_primary, close_pool,
}

-- The pool beside the handshakes that are under way.
pub record PoolWorld : Type 0 where
  pub pool : Pool
  pub in_flight : ℕ

-- What the goroutines of the client do: a handshake that begins, and one that ends; a data session
-- that is lost; a tick of the scaler; the end of the client.
pub data Move : Type 0 where
  begins : Move
  settles : (now : ℕ) → (outcome : Option Bytes) → Move
  loses : (id : Bytes) → Move
  ticks : (now active : ℕ) → (outcomes : List (Option Bytes)) → Move
  closes : Move

abbrev begun : PoolWorld → Option Pool → PoolWorld
begun w none = w
begun w (some p) = record { pool = p; in_flight = w.in_flight + 1 }

unfoldable pub move : Move → PoolWorld → PoolWorld
move begins w = begun w (reserve_session_slot w.pool)
move (settles now outcome) w =
    if w.in_flight == 0
    then w
    else record { pool = settle_data_session now outcome w.pool; in_flight = w.in_flight - 1 }
move (loses id) w = record w { pool = remove_data_session id w.pool }
move (ticks now active outcomes) w = record w { pool = tick now active outcomes w.pool }
move closes w = record w { pool = close_pool w.pool }

unfoldable pub moves : List Move → PoolWorld → PoolWorld
moves [] w = w
moves (m ∷ rest) w = moves rest (move m w)

length-select : {A : Type 0} (p : A → Bool) (xs : List A) → length (select p xs) ≤ length xs
length-select p [] = omega arith
length-select p (x ∷ xs) = ground (arith, length-select p xs)

-- The bounds of a pool: its sizes are in order, its sessions and handshakes are no more than its
-- most, and so is the total that is wanted.
pub record IsBounded (p : Pool) : Type 0 where
  pub least : 1 ≤ p.min_sessions
  pub initial : p.min_sessions ≤ p.initial_sessions
  pub sizes : p.initial_sessions ≤ p.max_sessions
  pub held : session_count p ≤ p.max_sessions
  pub wanted : p.desired_total ≤ p.max_sessions

reserve-IsBounded :
    (p q : Pool)
    → reserve_session_slot p ≡ some q
    → IsBounded p
    → IsBounded q × (q.pending_sessions ≡ p.pending_sessions + 1)
unfolding reserve_session_slot session_count
reserve-IsBounded p q e b = ground arith

-- A handshake that was under way ends.
settle-IsBounded :
    (now : ℕ) (outcome : Option Bytes) (p : Pool)
    → 1 ≤ p.pending_sessions
    → IsBounded p
    → IsBounded (settle_data_session now outcome p)
      × ((settle_data_session now outcome p).pending_sessions + 1 ≡ p.pending_sessions)
unfolding settle_data_session release_session_slot session_count
settle-IsBounded now none p one b = ground arith
settle-IsBounded now (some id) p one b =
    ground (arith, length-select (λ (s : SessionHandle). not (str_eq s.id id)) p.data_sessions)

remove-IsBounded :
    (id : Bytes) (p : Pool)
    → IsBounded p
    → IsBounded (remove_data_session id p)
      × ((remove_data_session id p).pending_sessions ≡ p.pending_sessions)
unfolding remove_data_session session_count
remove-IsBounded id p b =
    ground (arith, length-select (λ (s : SessionHandle). not (str_eq s.id id)) p.data_sessions)

close-IsBounded :
    (p : Pool)
    → IsBounded p
    → IsBounded (close_pool p) × ((close_pool p).pending_sessions ≡ p.pending_sessions)
unfolding close_pool session_count
close-IsBounded p b = ground arith

-- What a step of the scaler keeps.
abbrev Keeps : Pool → Pool → Type 0
Keeps p q = IsBounded q × (q.pending_sessions ≡ p.pending_sessions)

add-Keeps :
    (now : ℕ) (outcome : Option Bytes) (p : Pool)
    → IsBounded p
    → Keeps p (add_data_session now outcome p)
unfolding add_data_session
add-Keeps now outcome p b = elim (Option-cases (reserve_session_slot p)) [
  | inl full ↦ rw full (b, refl)
  | inr (q, reserved) ↦
      let (held, more) = reserve-IsBounded p q reserved b in
      let (kept, less) = settle-IsBounded now outcome q (omega arith) held in
      rw reserved (kept, omega arith)
]

adds-Keeps :
    (now : ℕ) (outcomes : List (Option Bytes)) (p : Pool)
    → IsBounded p
    → Keeps p (add_data_sessions now outcomes p)
unfolding add_data_sessions
adds-Keeps now [] p b = (b, refl)
adds-Keeps now (outcome ∷ rest) p b =
    let (one, same) = add-Keeps now outcome p b in
    let (all_of, rest_same) = adds-Keeps now rest (add_data_session now outcome p) one in
    (all_of, rest_same ∙ same)

remove_idle-Keeps : (p : Pool) → IsBounded p → Keeps p (remove_idle_session p)
unfolding remove_idle_session
remove_idle-Keeps p b = without (idle_candidate p.data_sessions)
  where
    without : (found : Option SessionHandle) → Keeps p (without_candidate p found)
    without none = (b, refl)
    without (some s) = remove-IsBounded s.id p b

rescaled-Keeps :
    (now desired : ℕ) (p q : Pool)
    → Keeps p q
    → desired ≤ q.max_sessions
    → Keeps p (rescaled now desired q)
unfolding rescaled session_count
rescaled-Keeps now desired p q kept bound = ground arith

max_kept :
    (now : ℕ) (outcomes : List (Option Bytes)) (p : Pool)
    → (add_data_sessions now outcomes p).max_sessions ≡ p.max_sessions
unfolding add_data_sessions add_data_session reserve_session_slot settle_data_session
    release_session_slot
max_kept now [] p = refl
max_kept now (none ∷ rest) p = max_kept now rest (add_data_session now none p) ∙ ground arith
max_kept now (some id ∷ rest) p =
    max_kept now rest (add_data_session now (some id) p) ∙ ground arith

max_unchanged : (p : Pool) → (remove_idle_session p).max_sessions ≡ p.max_sessions
unfolding remove_idle_session remove_data_session
max_unchanged p = ground arith

module _ (now active : ℕ) (outcomes : List (Option Bytes)) (p : Pool) (b : IsBounded p) where
  burst-Keeps : Keeps p (burst now outcomes p)
  unfolding burst
  burst-Keeps =
      let added = min_of 4 (p.max_sessions - session_count p) in
      let room : session_count p + added ≤ p.max_sessions = ground (arith, b.held) in
      rescaled-Keeps now (session_count p + added) p (add_data_sessions now (take added outcomes) p)
        (adds-Keeps now (take added outcomes) p b) (rw (max_kept now (take added outcomes) p) room)

  scale_up-Keeps : Keeps p (scale_up now outcomes p)
  unfolding scale_up
  scale_up-Keeps =
      let desired = min_of (p.desired_total + 1) p.max_sessions in
      let room : desired ≤ p.max_sessions = ground arith in
      let grown : Keeps p (rescaled now desired (add_data_sessions now (take 1 outcomes) p)) =
        rescaled-Keeps now desired p (add_data_sessions now (take 1 outcomes) p)
          (adds-Keeps now (take 1 outcomes) p b) (rw (max_kept now (take 1 outcomes) p) room) in
      if_cases (Keeps p) (ltb (now - p.last_scale) 1000000000) _ _ (λ early. (b, refl))
        (λ late.
          if_cases (Keeps p) (ltb p.desired_total desired) _ _ (λ more. grown)
            (λ enough. (b, refl)))

  scale_down-Keeps : Keeps p (scale_down now p)
  unfolding scale_down
  scale_down-Keeps =
      let desired = max_of (p.desired_total - 1) p.min_sessions in
      let room : desired ≤ p.max_sessions = ground (arith, b.wanted) in
      let shrunk : Keeps p (rescaled now desired (remove_idle_session p)) =
        rescaled-Keeps now desired p (remove_idle_session p) (remove_idle-Keeps p b)
          (rw (max_unchanged p) room) in
      if_cases (Keeps p) (ltb (now - p.last_scale) 60000000000) _ _ (λ early. (b, refl))
        (λ late.
          if_cases (Keeps p) (ltb desired p.desired_total && ltb desired (session_count p)) _ _
            (λ fewer. shrunk) (λ enough. (b, refl)))

  scaled-Keeps : Keeps p (rescale now active outcomes p)
  unfolding rescale
  scaled-Keeps =
      let current = session_count p in
      let capacity = current * 256 in
      if_cases (Keeps p) (current == 0) _ _ (λ idle. (b, refl))
        (λ up.
          if_cases (Keeps p) (ltb (9 * capacity) (10 * active) && ltb current p.max_sessions) _ _
            (λ extreme. burst-Keeps)
            (λ calm.
              if_cases (Keeps p) (ltb (6 * capacity) (10 * active) && ltb current p.max_sessions) _
                _ (λ high. scale_up-Keeps)
                (λ fine.
                  if_cases (Keeps p)
                    (ltb (10 * active) (2 * capacity) && ltb p.min_sessions current) _ _
                    (λ low. scale_down-Keeps) (λ steady. (b, refl)))))

tick-Keeps :
    (now active : ℕ) (outcomes : List (Option Bytes)) (p : Pool)
    → IsBounded p
    → Keeps p (tick now active outcomes p)
unfolding tick session_count
tick-Keeps now active outcomes p b =
    let bounded : IsBounded (started p) = ground arith in
    scaled-Keeps now active outcomes (started p) bounded

-- The handshakes under way are those that a session is set aside for.
pub record IsTracked (w : PoolWorld) : Type 0 where
  pub pool : IsBounded w.pool
  pub pending : w.pool.pending_sessions ≡ w.in_flight

move-IsTracked : (m : Move) (w : PoolWorld) → IsTracked w → IsTracked (move m w)
unfolding move
move-IsTracked begins w t = elim (Option-cases (reserve_session_slot w.pool)) [
  | inl full ↦ rw full t
  | inr (q, reserved) ↦
      let (held, more) = reserve-IsBounded w.pool q reserved t.pool in
      rw reserved (record { pool = held; pending = more ∙ ap (λ n. n + 1) t.pending })
]
move-IsTracked (settles now outcome) w t =
    if_cases IsTracked (w.in_flight == 0) _ _ (λ none_left. t)
      (λ one.
        let (kept, less) = settle-IsBounded now outcome w.pool (ground (arith, t.pending)) t.pool in
        record { pool = kept; pending = omega (arith, t.pending) })
move-IsTracked (loses id) w t =
    let (kept, same) = remove-IsBounded id w.pool t.pool in
    record { pool = kept; pending = same ∙ t.pending }
move-IsTracked (ticks now active outcomes) w t =
    let (kept, same) = tick-Keeps now active outcomes w.pool t.pool in
    record { pool = kept; pending = same ∙ t.pending }
move-IsTracked closes w t =
    let (kept, same) = close-IsBounded w.pool t.pool in
    record { pool = kept; pending = same ∙ t.pending }

moves-IsTracked : (ms : List Move) (w : PoolWorld) → IsTracked w → IsTracked (moves ms w)
unfolding moves
moves-IsTracked [] w t = t
moves-IsTracked (m ∷ rest) w t = moves-IsTracked rest (move m w) (move-IsTracked m w t)

-- The pool after the primary connection, with no handshake under way.
abbrev pub connected : ℕ → ℤ → ℤ → ℤ → PoolWorld
connected num_cpu pool_min pool_max pool_size = record {
  pool = connect_primary (new_pool num_cpu pool_min pool_max pool_size);
  in_flight = 0;
}

connected-IsTracked :
    (num_cpu : ℕ) (pool_min pool_max pool_size : ℤ)
    → IsTracked (connected num_cpu pool_min pool_max pool_size)
unfolding connect_primary new_pool session_count
connected-IsTracked num_cpu pool_min pool_max pool_size = ground arith

-- From the primary connection on, whatever sizes are configured, in whatever order handshakes begin,
-- succeed and fail, sessions are lost, the scaler ticks and the client is closed: the sessions and
-- the handshakes under way are no more than the most that the pool may have, the total that the
-- scaler wants is not more either, and a session is set aside for each handshake under way and for
-- nothing else.
pub moves-IsBounded :
    (num_cpu : ℕ) (pool_min pool_max pool_size : ℤ) (ms : List Move)
    → let w = moves ms (connected num_cpu pool_min pool_max pool_size) in
      (session_count w.pool ≤ w.pool.max_sessions)
      × (w.pool.desired_total ≤ w.pool.max_sessions)
      × (w.pool.pending_sessions ≡ w.in_flight)
moves-IsBounded num_cpu pool_min pool_max pool_size ms =
    let t = moves-IsTracked ms _ (connected-IsTracked num_cpu pool_min pool_max pool_size) in
    (t.pool.held, t.pool.wanted, t.pending)
