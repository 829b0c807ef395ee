-- ===== src/Tcp/Groups/Heap.antt =====
-- The heap of the sessions that a new stream may go to, and the search through it.
use drip_ex.Base.{
  leb, if◌then◌else◌, All, Bytes, str_eq, Result, ok, err, ℕ, ◌<◌, ◌≡◌, refl, subst, ◌≢◌, ◌⊎◌, inl,
  inr, Bool, true, false, not, ◌&&◌, Option, some, List, [], ◌∷◌, arith,
}
use drip_ex.Tcp.Groups.{
  primary, max_streams_per_session, Answers, push, build_session_heap, delete_closed_sessions,
  Found, found, none_opened, opened_or, try_heap,
}

module _ {S F Stream : Type 0} (look : ℕ → S → Answers F Stream) where
  abbrev pub In : Bytes × S → List (Bytes × S) → Type 0
  In e [] = ⊥
  In e (x ∷ xs) = (x ≡ e) ⊎ In e xs

  -- All sessions of the first are sessions of the second.
  abbrev pub Within : List (Bytes × S) → List (Bytes × S) → Type 0
  Within xs ys = (e : Bytes × S) → In e xs → In e ys

  -- The session is the primary one or does not live.
  abbrev pub IsIdle : ℕ → Bytes × S → Type 0
  IsIdle i (id, s) = (str_eq id primary ≡ true) ⊎ ((look i s).closed_before ≡ true)

  In-push :
      (i : ℕ) (e f : Bytes × S) (heap : List (Bytes × S))
      → In e (push look i f heap)
      → (f ≡ e) ⊎ In e heap
  unfolding push
  In-push i e f [] h = h
  In-push i e f (x ∷ heap) h =
      by_order (leb (look i f.1).streams (look i x.1).streams) (In-push i e f heap) h
    where
      by_order :
          (first : Bool)
          → (In e (push look i f heap) → (f ≡ e) ⊎ In e heap)
          → In e (if first then f ∷ x ∷ heap else x ∷ push look i f heap)
          → (f ≡ e) ⊎ ((x ≡ e) ⊎ In e heap)
      by_order true rest h = h
      by_order false rest (inl here) = inr (inl here)
      by_order false rest (inr later) = elim (rest later) [
        | inl same ↦ inl same
        | inr old ↦ inr (inr old)
      ]

  -- What stands in a heap is a session that lives, and the primary one only where it is asked for.
  pub record IsListed (i : ℕ) (include_primary : Bool) (e : Bytes × S) (sessions : List (Bytes × S))
      : Type 0 where
    pub held : In e sessions
    pub alive : (look i e.1).closed_before ≡ false
    pub secondary : include_primary ≡ false → str_eq e.0 primary ≡ false

  pub build-IsListed :
      (i : ℕ) (include_primary : Bool) (e : Bytes × S) (sessions : List (Bytes × S))
      → In e (build_session_heap look i include_primary sessions)
      → IsListed i include_primary e sessions
  unfolding build_session_heap
  build-IsListed i include_primary e [] h = absurd h
  build-IsListed i include_primary e ((id, s) ∷ sessions) h =
      by_tests (look i s).closed_before (str_eq id primary && not include_primary) refl refl
        (build-IsListed i include_primary e sessions) h
    where
      later :
          IsListed i include_primary e sessions → IsListed i include_primary e ((id, s) ∷ sessions)
      later w = record { held = inr w.held; alive = w.alive; secondary = w.secondary }

      by_tests :
          (dead skipped : Bool)
          → (look i s).closed_before ≡ dead
          → (str_eq id primary && not include_primary) ≡ skipped
          → (In e (build_session_heap look i include_primary sessions)
              → IsListed i include_primary e sessions)
          → In e (
              if dead
              then build_session_heap look i include_primary sessions
              else if skipped
              then build_session_heap look i include_primary sessions
              else push look i (id, s) (build_session_heap look i include_primary sessions))
          → IsListed i include_primary e ((id, s) ∷ sessions)
      by_tests true skipped d f rest h = later (rest h)
      by_tests false true d f rest h = later (rest h)
      by_tests false false d f rest h =
          elim (In-push i e (id, s) (build_session_heap look i include_primary sessions) h) [
            | inl same ↦ record {
              held = inl same;
              alive = subst (λ x. (look i x.1).closed_before ≡ false) same d;
              secondary = λ none_asked.
                  subst (λ x. str_eq x.0 primary ≡ false) same (ground (arith, f, none_asked));
            }
            | inr old ↦ later (rest old)
          ]

  push_ne : (i : ℕ) (e : Bytes × S) (heap : List (Bytes × S)) → push look i e heap ≢ []
  unfolding push
  push_ne i e [] h = cc
  push_ne i e (f ∷ heap) h = by_order (leb (look i e.1).streams (look i f.1).streams) h
    where
      by_order : (first : Bool) → (if first then e ∷ f ∷ heap else f ∷ push look i e heap) ≡ [] → ⊥
      by_order true h = cc
      by_order false h = cc

  -- Nothing stands in the heap without the primary session only where all others are dead.
  pub empty-IsIdle :
      (i : ℕ) (sessions : List (Bytes × S))
      → build_session_heap look i false sessions ≡ []
      → All (IsIdle i) sessions
  unfolding build_session_heap
  empty-IsIdle i [] h = tt
  empty-IsIdle i ((id, s) ∷ sessions) h =
      by_tests (look i s).closed_before (str_eq id primary) refl refl (empty-IsIdle i sessions) h
    where
      by_tests :
          (dead first : Bool)
          → (look i s).closed_before ≡ dead
          → str_eq id primary ≡ first
          → (build_session_heap look i false sessions ≡ [] → All (IsIdle i) sessions)
          → (if dead
              then build_session_heap look i false sessions
              else if first && not false
              then build_session_heap look i false sessions
              else push look i (id, s) (build_session_heap look i false sessions))
            ≡ []
          → All (IsIdle i) ((id, s) ∷ sessions)
      by_tests true first d f rest h = (inr d, rest h)
      by_tests false true d f rest h = (inl f, rest h)
      by_tests false false d f rest h =
          absurd (push_ne i (id, s) (build_session_heap look i false sessions) h)

  -- A stream that was found in a heap is of a session of the heap that lives and has room.
  abbrev pub IsFound : ℕ → List (Bytes × S) → Found F Stream → Type 0
  IsFound i heap (none_opened last) = Unit
  IsFound i heap (found id stream) =
      (s : S) × In (id, s) heap
      × ((look i s).closed ≡ false)
      × ((look i s).num_streams < 256)
      × ((look i s).opened ≡ ok stream)

  later-IsFound :
      (i : ℕ) (e : Bytes × S) (heap : List (Bytes × S)) (out : Found F Stream)
      → IsFound i heap out
      → IsFound i (e ∷ heap) out
  later-IsFound i e heap (none_opened last) w = tt
  later-IsFound i e heap (found id stream) (s, held, alive, room, opened) =
      (s, inr held, alive, room, opened)

  delete-Within :
      (i : ℕ) (sessions : List (Bytes × S))
      → Within (delete_closed_sessions look i sessions) sessions
  unfolding delete_closed_sessions
  delete-Within i [] e h = h
  delete-Within i ((id, s) ∷ sessions) e h =
      by_test (look i s).closed_after (delete-Within i sessions e) h
    where
      by_test :
          (dead : Bool)
          → (In e (delete_closed_sessions look i sessions) → In e sessions)
          → In e (
              if dead
              then delete_closed_sessions look i sessions
              else (id, s) ∷ delete_closed_sessions look i sessions)
          → In e ((id, s) ∷ sessions)
      by_test true rest h = inr (rest h)
      by_test false rest (inl here) = inl here
      by_test false rest (inr old) = inr (rest old)

  -- The heap's turn leaves sessions that were there.
  pub try_heap-IsFound :
      (i : ℕ) (heap : List (Bytes × S)) (last : Option F) (sessions : List (Bytes × S))
      → IsFound i heap (try_heap look i heap last sessions).1
        × Within (try_heap look i heap last sessions).0 sessions
  unfolding try_heap
  try_heap-IsFound i [] last sessions = (tt, λ e h. h)
  try_heap-IsFound i ((id, s) ∷ heap) last sessions =
      by_tests (look i s).closed (leb max_streams_per_session (look i s).num_streams)
        (look i s).opened refl refl refl (try_heap-IsFound i heap last sessions)
        (λ e.
          try_heap-IsFound i heap (some e)
            (if (look i s).closed_after then delete_closed_sessions look i sessions else sessions))
    where
      remaining : List (Bytes × S)
      remaining =
          if (look i s).closed_after then delete_closed_sessions look i sessions else sessions

      remaining-Within :
          (dead : Bool)
          → Within (if dead then delete_closed_sessions look i sessions else sessions) sessions
      remaining-Within true = delete-Within i sessions
      remaining-Within false = λ e h. h

      Kept : List (Bytes × S) × Found F Stream → Type 0
      Kept out = IsFound i ((id, s) ∷ heap) out.1 × Within out.0 sessions

      by_tests :
          (dead full : Bool) (answer : Result F Stream)
          → (look i s).closed ≡ dead
          → leb max_streams_per_session (look i s).num_streams ≡ full
          → (look i s).opened ≡ answer
          → IsFound i heap (try_heap look i heap last sessions).1
            × Within (try_heap look i heap last sessions).0 sessions
          → ((e : F)
              → IsFound i heap (try_heap look i heap (some e) remaining).1
                × Within (try_heap look i heap (some e) remaining).0 remaining)
          → Kept (
              if dead
              then try_heap look i heap last sessions
              else if full
              then try_heap look i heap last sessions
              else opened_or look id answer (λ e. try_heap look i heap (some e) remaining) sessions)
      by_tests true full answer d f o skip next = (later-IsFound i (id, s) heap _ skip.0, skip.1)
      by_tests false true answer d f o skip next = (later-IsFound i (id, s) heap _ skip.0, skip.1)
      by_tests false false (ok stream) d f o skip next =
          ((s, inl refl, d, ground arith, o), λ e h. h)
      by_tests false false (err reason) d f o skip next = (
        later-IsFound i (id, s) heap _ (next reason).0,
        λ e h. remaining-Within (look i s).closed_after e ((next reason).1 e h),
      )
