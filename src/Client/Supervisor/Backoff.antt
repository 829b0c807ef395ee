-- ===== src/Client/Supervisor/Backoff.antt =====
-- How long the runner of internal/client/cli/tunnel_supervisor.go waits, and what ends a tunnel.
use drip_ex.Base.{
  if◌then◌else◌, Bool-cases, length, All, Bytes, codes, Result, ok, err, ℕ, zero, suc, ◌+◌, ◌*◌,
  ◌/◌, ◌%◌, ◌≤◌, ◌<◌, min, ◌≡◌, refl, ap, subst, ◌∙◌, ◌⊎◌, inl, inr, true, false, Option, List, [],
  ◌∷◌, arith,
}
use drip_ex.Client.Supervisor.{
  min_backoff, max_backoff, contains, is_configuration_error, is_non_retryable_error,
  is_fatal_tunnel_error, next_backoff, jitter_backoff, Supervision, Attempt, refused, served,
  with_assigned, rebound, backed_off, turn, behind, then_turns, turns, supervision,
}

-- The backoff that doubles from the least to the most.
unfoldable pub doubled : ℕ → ℕ
doubled zero = min_backoff
doubled (suc n) = min (2 * doubled n) max_backoff

next-doubled : (n : ℕ) → next_backoff (doubled n) ≡ doubled (suc n)
unfolding doubled next_backoff
next-doubled n = ground arith

abbrev InRange : ℕ → Type 0
InRange b = (min_backoff ≤ b) × (b ≤ max_backoff)

next-InRange : (b : ℕ) → InRange b → InRange (next_backoff b)
unfolding next_backoff
next-InRange b r = ground arith

-- A wait lies within a fifth of the backoff.
abbrev pub IsWait : ℕ → Type 0
IsWait w = (2400000000 ≤ w) × (w ≤ 144000000000)

jitter-IsWait : (b drawn : ℕ) → InRange b → IsWait (jitter_backoff b drawn)
unfolding jitter_backoff
jitter-IsWait b drawn r =
    let below : drawn % (2 * (b / 5) + 1) < 2 * (b / 5) + 1 = ground arith in ground arith

turn-InRange :
    (drawn : ℕ) (a : Attempt) (s s' : Supervision) (w : ℕ)
    → InRange s.backoff
    → turn drawn a s ≡ ok (w, s')
    → IsWait w × InRange s'.backoff
unfolding turn
turn-InRange drawn (refused message) s s' w r e =
    let same : backed_off s ≡ s' = ground arith in
    let waited : jitter_backoff s.backoff drawn ≡ w = ground arith in
    (
      subst IsWait waited (jitter-IsWait s.backoff drawn r),
      subst (λ t. InRange t.backoff) same (next-InRange s.backoff r),
    )
turn-InRange drawn (served assigned rebind) s s' w r e =
    let lost = rebound rebind (with_assigned assigned s) in
    let same : backed_off lost ≡ s' = ground arith in
    let waited : jitter_backoff lost.backoff drawn ≡ w = ground arith in
    let least : InRange lost.backoff = ground arith in
    (
      subst IsWait waited (jitter-IsWait lost.backoff drawn least),
      subst (λ t. InRange t.backoff) same (next-InRange lost.backoff least),
    )

-- What a run of turns shows: each wait in the range, and one for each attempt.
abbrev Waits : ℕ → Result Bytes (List ℕ × Supervision) → Type 0
Waits n (err message) = Unit
Waits n (ok (waits, s)) = All IsWait waits × (length waits ≡ n)

more-Waits :
    (n w : ℕ) (later : Result Bytes (List ℕ × Supervision))
    → IsWait w
    → Waits n later
    → Waits (suc n) (behind w later)
more-Waits n w (err message) wait rest = tt
more-Waits n w (ok (waits, s)) wait rest = ((wait, rest.0), ap suc rest.1)

turns-Waits :
    (attempts : List (ℕ × Attempt)) (s : Supervision)
    → InRange s.backoff
    → Waits (length attempts) (turns attempts s)
unfolding turns
turns-Waits [] s r = (tt, refl)
turns-Waits ((drawn, a) ∷ rest) s r =
    by_turn (turn drawn a s) (λ w s'. turn-InRange drawn a s s' w r) (turns-Waits rest)
  where
    by_turn :
        (out : Result Bytes (ℕ × Supervision))
        → ((w : ℕ) (s' : Supervision) → out ≡ ok (w, s') → IsWait w × InRange s'.backoff)
        → ((s' : Supervision) → InRange s'.backoff → Waits (length rest) (turns rest s'))
        → Waits (suc (length rest)) (then_turns (turns rest) out)
    by_turn (err message) one later = tt
    by_turn (ok (w, s')) one later =
        let (wait, range) = one w s' refl in
        more-Waits (length rest) w (turns rest s') wait (later s' range)

-- Whatever the attempts of a tunnel come to, it waits once after each of them, for at least 2.4 and at
-- most 144 seconds, until it ends.
pub turns_waits :
    (name : Bytes) (attempts : List (ℕ × Attempt)) (waits : List ℕ) (s : Supervision)
    → turns attempts (supervision name) ≡ ok (waits, s)
    → All IsWait waits × (length waits ≡ length attempts)
unfolding supervision
turns_waits name attempts waits s e =
    subst (Waits (length attempts)) e (turns-Waits attempts (supervision name) (omega arith))

ends_later :
    (w : ℕ) (later : Result Bytes (List ℕ × Supervision)) (message : Bytes)
    → behind w later ≡ err message
    → later ≡ err message
ends_later w (err m) message e = ground arith
ends_later w (ok (waits, s)) message e = ground arith

goes_on :
    (w : ℕ) (later : Result Bytes (List ℕ × Supervision)) (waits : List ℕ) (s : Supervision)
    → behind w later ≡ ok (waits, s)
    → (rest : List ℕ) × (later ≡ ok (rest, s))
goes_on w (err m) waits s e = cc
goes_on w (ok (rest, q)) waits s e = (rest, ground arith)

turns_fatal :
    (attempts : List (ℕ × Attempt)) (s : Supervision) (message : Bytes)
    → s.connected_once ≡ true
    → turns attempts s ≡ err message
    → is_fatal_tunnel_error message true ≡ true
unfolding turns turn
turns_fatal [] s message once e = cc
turns_fatal ((drawn, refused m) ∷ rest) s message once e =
    elim (Bool-cases (is_fatal_tunnel_error m s.connected_once)) [
      | inl fatal ↦
          let same : m ≡ message = ground arith in
          subst (λ t. is_fatal_tunnel_error t true ≡ true) same
            (subst (λ once'. is_fatal_tunnel_error m once' ≡ true) once fatal)
      | inr fine ↦ turns_fatal rest (backed_off s) message once (
          ends_later (jitter_backoff s.backoff drawn) (turns rest (backed_off s)) message (
            subst
              (λ b.
                then_turns (turns rest)
                  (if b then err m else ok (jitter_backoff s.backoff drawn, backed_off s))
                ≡ err message)
              fine e))
    ]
turns_fatal ((drawn, served assigned rebind) ∷ rest) s message once e =
    turns_fatal rest (backed_off (rebound rebind (with_assigned assigned s))) message (ground arith)
      (ends_later _ (turns rest (backed_off (rebound rebind (with_assigned assigned s)))) message e)

-- After its first connection a tunnel ends for two reasons only: the server does not take its kind of
-- transport, or it refuses the client in a way that no retry mends and that is no taken name. That its
-- own old session still holds the name never ends it.
pub turns_connected :
    (drawn : ℕ) (assigned : Bytes) (rebind : Option Bytes) (attempts : List (ℕ × Attempt))
    (s : Supervision) (message : Bytes)
    → turns ((drawn, served assigned rebind) ∷ attempts) s ≡ err message
    → (is_configuration_error message ≡ true)
      ⊎ ((is_non_retryable_error message ≡ true)
          × (contains (codes "already taken") message ≡ false))
unfolding turns turn is_fatal_tunnel_error
turns_connected drawn assigned rebind attempts s message e =
    let lost = rebound rebind (with_assigned assigned s) in
    let fatal =
      turns_fatal attempts (backed_off lost) message (ground arith)
        (ends_later _ (turns attempts (backed_off lost)) message e) in
    elim (Bool-cases (is_configuration_error message)) [
      | inl wrong ↦ inl wrong
      | inr fine ↦ inr (ground arith)
    ]

abbrev pub refusals : List (ℕ × Bytes) → List (ℕ × Attempt)
refusals [] = []
refusals ((drawn, message) ∷ rest) = (drawn, refused message) ∷ refusals rest

turns_all_failed :
    (n : ℕ) (rest : List (ℕ × Bytes)) (waits : List ℕ) (s s' : Supervision)
    → s.backoff ≡ doubled n
    → turns (refusals rest) s ≡ ok (waits, s')
    → (s'.backoff ≡ doubled (n + length rest))
      × (s'.subdomain ≡ s.subdomain)
      × (s'.connected_once ≡ s.connected_once)
unfolding turns turn
turns_all_failed n [] waits s s' start e =
    let same : s ≡ s' = ground arith in
    subst
      (λ t.
        (t.backoff ≡ doubled (n + 0))
        × (t.subdomain ≡ s.subdomain)
        × (t.connected_once ≡ s.connected_once))
      same (start ∙ ap doubled (omega arith), refl, refl)
turns_all_failed n ((drawn, m) ∷ rest) waits s s' start e =
    elim (Bool-cases (is_fatal_tunnel_error m s.connected_once)) [
      | inl fatal ↦ absurd (ground arith)
      | inr fine ↦
          let (later, run) =
            goes_on (jitter_backoff s.backoff drawn) (turns (refusals rest) (backed_off s)) waits s'
              (subst
                (λ b.
                  then_turns (turns (refusals rest))
                    (if b then err m else ok (jitter_backoff s.backoff drawn, backed_off s))
                  ≡ ok (waits, s'))
                fine e) in
          let (backoff, name, once) =
            turns_all_failed (suc n) rest later (backed_off s) s'
              (ap next_backoff start ∙ next-doubled n) run in
          (backoff ∙ ap doubled (omega arith), name, once)
    ]

-- As long as a new tunnel is refused and not ended, its backoff doubles from 3 seconds up to 2 minutes,
-- and it goes on asking for the name that it began with.
pub turns_twice :
    (name : Bytes) (rest : List (ℕ × Bytes)) (waits : List ℕ) (s : Supervision)
    → turns (refusals rest) (supervision name) ≡ ok (waits, s)
    → (s.backoff ≡ doubled (length rest)) × (s.subdomain ≡ name)
unfolding supervision doubled
turns_twice name rest waits s e =
    let (backoff, same, once) = turns_all_failed 0 rest waits (supervision name) s refl e in
    (backoff ∙ ap doubled (omega arith), same)
