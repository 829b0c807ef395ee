-- ===== src/Examples/Guarding.antt =====
-- Access lists, bandwidths, the login throttle and the end of a connection at concrete inputs.
use drip_ex.Base.{
  ltb, leb, if◌then◌else◌, length, All, Bytes, codes, is_empty, to_lower, to_upper, trim_space,
  strip_prefix, lookup, ok, err, pos, ℕ, ◌+◌, ◌*◌, ◌^◌, ◌≤◌, ◌≡◌, refl, ◌↔◌, ◌⊎◌, Bool, true, false,
  Option, none, some, [], ◌∷◌, arith,
}
use drip_ex.Names.Decimal.{atoi, read_digits}
use drip_ex.Units.{parse_bandwidth, split_unit, strip_suffix, overflow, parse_bandwidth_lem}
use drip_ex.Access.{is_allowed, new_ip_access_checker, IsVoid, Admits, is_allowed_iff}
use drip_ex.Admin.LoginLimiter.{
  LoginLimiter, new_login_limiter, open_record, allow, fail_all, succeed, allow-fail_all,
}
use drip_ex.Store.Sessions.{SessionRow, new_session, create_session}

-- 2^33 gigabytes are too much by one.
abbrev too_much : Bytes
too_much = codes " 8589934592gb"

too_much_given : is_empty (trim_space (to_upper too_much)) ≡ false
unfolding trim_space to_upper
too_much_given = refl

too_much_read : atoi (split_unit (trim_space (to_upper too_much))).0 ≡ some (pos 8589934592)
unfolding trim_space to_upper split_unit strip_suffix strip_prefix atoi read_digits
too_much_read = refl

parse_bandwidth_lem_example : parse_bandwidth too_much ≡ (
    let product = 8589934592 * (split_unit (trim_space (to_upper too_much))).1 in
    if ltb product (2 ^ 63) then ok (pos product) else err overflow)
parse_bandwidth_lem_example = parse_bandwidth_lem too_much 8589934592 too_much_given too_much_read

abbrev team_key : Bytes
team_key = codes "1.2.3.4"

abbrev throttle : LoginLimiter
throttle = new_login_limiter 3 100

no_window : open_record 50 throttle.window (lookup team_key throttle.attempts) ≡ none
unfolding new_login_limiter lookup
no_window = refl

in_window : All (λ t. t ≤ 50 + throttle.window) (60 ∷ 150 ∷ [])
unfolding new_login_limiter
in_window = (omega arith, (omega arith, tt))

-- Three failures within 100 ticks are enough.
allow-fail_all_example :
    (allow 150 team_key (fail_all (50 ∷ 60 ∷ 150 ∷ []) team_key throttle)
      ≡ (if leb 150 (50 + throttle.window) then ltb 3 throttle.max else true))
    × (allow 150 team_key (succeed team_key (fail_all (50 ∷ 60 ∷ 150 ∷ []) team_key throttle))
        ≡ true)
allow-fail_all_example =
    allow-fail_all team_key refl 50 (60 ∷ 150 ∷ []) 150 throttle no_window in_window

-- Addresses are numbers, and a network is the addresses below a number.
abbrev read_ip : Bytes → Option ℕ
read_ip s = some (length s)

abbrev read_net : Bytes → Option ℕ
read_net s = if is_empty s then none else some (length s)

abbrev ltb_flip : ℕ → ℕ → Bool
ltb_flip net ip = ltb ip net

is_allowed_iff_example :
    (is_allowed read_ip
        (λ ip. true)
        read_net
        ltb_flip
        (new_ip_access_checker read_ip (λ ip. true) read_net ltb_flip (codes "abcd/" ∷ []) [])
        (codes "ab")
      ≡ true)
    ↔ ((IsVoid read_ip (λ ip. true) read_net ltb_flip (codes "abcd/" ∷ [])
          × IsVoid read_ip (λ ip. true) read_net ltb_flip [])
        ⊎ ((ip : ℕ) × (read_ip (codes "ab") ≡ some ip)
            × Admits read_ip (λ ip. true) read_net ltb_flip (codes "abcd/" ∷ []) [] ip))
is_allowed_iff_example =
    is_allowed_iff read_ip (λ ip. true) read_net ltb_flip (codes "abcd/" ∷ []) [] (codes "ab")

abbrev live : SessionRow
live = record {
  id = [];
  account_id = codes "team";
  client_id = codes "laptop";
  reservation_id = none;
  tunnel_type = codes "HTTPS";
  subdomain = codes " Acme";
  tcp_port = 0;
  local_port = 3000;
  remote_ip = codes "1.2.3.4";
  started_at = none;
}

live_created : create_session (codes "s1") 9 live [] ≡ ok (new_session (codes "s1") 9 live ∷ [])
unfolding create_session to_lower trim_space
live_created = refl
