-- ===== src/Examples/Opening.antt =====
-- Streams over a group of sessions at concrete inputs.
use drip_ex.Base.{
  ◌==◌, if◌then◌else◌, codes, str_eq, insert, ok, err, ℕ, ◌+◌, ◌%◌, ◌≡◌, refl, Bool, false,
}
use drip_ex.Tcp.Groups.{
  ConnectionGroup, Answers, new_connection_group, add_session, primary, open_stream, try_open,
  session_heap, build_session_heap, push, try_heap,
}
use drip_ex.Tcp.Groups.Chosen.{IsServed, open_stream-IsServed}

-- A session is its number of streams; an even number can open one more.
abbrev answers : ℕ → ℕ → Answers ℕ ℕ
answers attempt streams = record {
  closed_before = false;
  streams = streams;
  closed = false;
  num_streams = streams;
  opened = if streams % 2 == 0 then ok (streams + 1) else err attempt;
  closed_after = false;
}

-- The primary session, and two data sessions.
abbrev group : ConnectionGroup ℕ
group =
    add_session 3 (codes "b") 10
      (add_session 2 (codes "a") 7 (add_session 1 primary 0 (new_connection_group 0)))

abbrev never : ℕ → Bool
never i = false

group_opens : (open_stream answers never never group).1 ≡ ok (codes "b", 11)
unfolding open_stream try_open session_heap build_session_heap push try_heap add_session
    new_connection_group insert str_eq
group_opens = refl

open_stream-IsServed_example :
    IsServed answers 3 group.sessions (open_stream answers never never group).1
open_stream-IsServed_example = open_stream-IsServed answers never never group
