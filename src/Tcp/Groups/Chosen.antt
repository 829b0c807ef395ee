-- ===== src/Tcp/Groups/Chosen.antt =====
-- Which session of a group a new stream is opened on.
use drip_ex.Base.{
  ltb, if◌then◌else◌, Bool-cases, All, Bytes, str_eq, Result, ok, err, ℕ, zero, suc, ◌+◌, ◌≤◌, ◌<◌,
  ◌≡◌, refl, sym, subst, ◌∙◌, inl, inr, Bool, true, false, ◌&&◌, ◌||◌, none, List, [], ◌∷◌, arith,
}
use drip_ex.Tcp.Groups.{
  primary, OpenError, group_closed, at_capacity, ConnectionGroup, Answers, build_session_heap,
  Found, found, none_opened, try_heap, or_primary, session_heap, last_error, attempted, if_any,
  try_open, open_stream,
}
use drip_ex.Tcp.Groups.Heap.{
  In, Within, IsIdle, build-IsListed, empty-IsIdle, IsFound, try_heap-IsFound,
}

module _ {S F Stream : Type 0} (look : ℕ → S → Answers F Stream) where
  -- A stream of a session that lives and is below its cap, not the primary one where another lives.
  pub record IsChosen (i : ℕ) (sessions : List (Bytes × S)) (id : Bytes) (stream : Stream)
      : Type 0 where
    pub session : S
    pub held : In look (id, session) sessions
    pub alive : (look i session).closed_before ≡ false
    pub still_alive : (look i session).closed ≡ false
    pub room : (look i session).num_streams < 256
    pub stream_opened : (look i session).opened ≡ ok stream
    pub last_resort : str_eq id primary ≡ true → All (IsIdle look i) sessions

  -- A session of the heap that an attempt goes through.
  record IsOffered (i : ℕ) (e : Bytes × S) (sessions : List (Bytes × S)) : Type 0 where
    held : In look e sessions
    alive : (look i e.1).closed_before ≡ false
    last_resort : str_eq e.0 primary ≡ true → All (IsIdle look i) sessions

  session_heap-IsOffered :
      (i : ℕ) (e : Bytes × S) (sessions : List (Bytes × S))
      → In look e (session_heap look i sessions)
      → IsOffered i e sessions
  unfolding session_heap
  session_heap-IsOffered i e sessions h = by_heap (build_session_heap look i false sessions) refl h
    where
      by_heap :
          (heap : List (Bytes × S))
          → build_session_heap look i false sessions ≡ heap
          → In look e (or_primary look i sessions heap)
          → IsOffered i e sessions
      by_heap [] same h =
          let w = build-IsListed look i true e sessions h in
          record {
            held = w.held;
            alive = w.alive;
            last_resort = λ asked. empty-IsIdle look i sessions same;
          }
      by_heap (f ∷ heap) same h =
          let w = build-IsListed look i false e sessions (subst (In look e) (sym same) h) in
          record {
            held = w.held;
            alive = w.alive;
            last_resort = λ asked.
                let other = w.secondary refl in let wrong : true ≡ false = sym asked ∙ other in cc;
          }

  -- The stream is of a session that was chosen in one of the attempts before `bound`.
  abbrev pub IsServed : ℕ → List (Bytes × S) → Result (OpenError F) (Bytes × Stream) → Type 0
  IsServed bound sessions (err e) = Unit
  IsServed bound sessions (ok (id, stream)) =
      (i : ℕ) × (i < bound)
      × (left : List (Bytes × S)) × Within look left sessions
      × IsChosen i left id stream

  weaken-IsServed :
      (bound : ℕ) (left sessions : List (Bytes × S)) (out : Result (OpenError F) (Bytes × Stream))
      → Within look left sessions
      → IsServed bound left out
      → IsServed bound sessions out
  weaken-IsServed bound left sessions (err e) within w = tt
  weaken-IsServed bound left sessions (ok (id, stream)) within (i, lt, rest, rest_within, chosen) =
      (i, lt, rest, λ e h. within e (rest_within e h), chosen)

  module _ (stop_before stop_after : ℕ → Bool) where
    try_open-IsServed :
        (n i bound : ℕ) (last : OpenError F) (sessions : List (Bytes × S))
        → i + n ≤ bound
        → IsServed bound sessions (try_open look stop_before stop_after n i last sessions).1
    unfolding try_open
    try_open-IsServed zero i bound last sessions le = tt
    try_open-IsServed (suc n) i bound last sessions le =
        by_stop (stop_before i) (session_heap look i sessions) refl
          (λ left e. try_open-IsServed n (i + 1) bound e left (omega (arith, le)))
      where
        Retried : Type 0
        Retried =
            (left : List (Bytes × S)) (e : OpenError F)
            → IsServed bound left (try_open look stop_before stop_after n (i + 1) e left).1

        retry :
            List (Bytes × S)
            → OpenError F
            → List (Bytes × S) × Result (OpenError F) (Bytes × Stream)
        retry left e =
            if ltb 0 n && stop_after i
            then (left, err group_closed)
            else try_open look stop_before stop_after n (i + 1) e left

        retry-IsServed :
            (left : List (Bytes × S)) (e : OpenError F)
            → Retried
            → IsServed bound left (retry left e).1
        retry-IsServed left e again = elim (Bool-cases (ltb 0 n && stop_after i)) [
          | inl stopped ↦ rw stopped tt
          | inr waited ↦ rw waited (again left e)
        ]

        tried-IsServed :
            (heap : List (Bytes × S)) (out : List (Bytes × S) × Found F Stream)
            → session_heap look i sessions ≡ heap
            → IsFound look i heap out.1
            → Within look out.0 sessions
            → Retried
            → IsServed bound sessions (attempted look out retry).1
        tried-IsServed heap (left, none_opened reason) same found_one within again =
            weaken-IsServed bound left sessions (retry left (last_error look reason)).1 within
              (retry-IsServed left (last_error look reason) again)
        tried-IsServed heap (left, found id stream) same (s, held, alive, room, opened) within
              again =
            let w =
              session_heap-IsOffered i (id, s) sessions (subst (In look (id, s)) (sym same) held) in
            (
              i,
              omega (arith, le),
              sessions,
              λ e h. h,
              record {
                session = s;
                held = w.held;
                alive = w.alive;
                still_alive = alive;
                room = room;
                stream_opened = opened;
                last_resort = w.last_resort;
              },
            )

        by_stop :
            (stopped : Bool) (heap : List (Bytes × S))
            → session_heap look i sessions ≡ heap
            → Retried
            → IsServed bound sessions
                (if stopped
                  then (sessions, err group_closed)
                  else if_any look i sessions heap retry).1
        by_stop true heap same again = tt
        by_stop false [] same again = tt
        by_stop false (e ∷ heap) same again =
            let (good, within) = try_heap-IsFound look i (e ∷ heap) none sessions in
            tried-IsServed (e ∷ heap) (try_heap look i (e ∷ heap) none sessions) same good within
              again

  -- A stream that is opened is of a session of the group, in one of three attempts: the session
  -- was alive when the heap was built and when its turn came, had fewer than 256 streams, and is
  -- the primary one only if every other session that the group then had was dead.
  pub open_stream-IsServed :
      (stop_before stop_after : ℕ → Bool) (g : ConnectionGroup S)
      → IsServed 3 g.sessions (open_stream look stop_before stop_after g).1
  unfolding open_stream
  open_stream-IsServed stop_before stop_after g =
      try_open-IsServed (λ i. g.stopped || stop_before i) (λ i. g.stopped || stop_after i) 3 0 3
        at_capacity g.sessions (omega arith)
