-- ===== src/Names.antt =====
-- Names that tunnels go by: internal/shared/utils/subdomain.go, `parseTCPSubdomainPort` of
-- internal/server/tcp/connection.go, `NormalizeTunnelType` of internal/server/store/reservations.go
-- and internal/shared/utils/url_builder.go.
pub mod Decimal
pub mod Labels
pub mod Ports
mod Tests
use drip_ex.Base.{
  ltb, leb, ◌==◌, if◌then◌else◌, ==_iff, Bool-cases, and-eq-true, Option-cases, is_some, or_default,
  length, get_or, set, take, drop, replicate, all, any, find?, select, All, length-append,
  length-set, get_or-set_self, get_or-set_ne, take-length_append, drop-length_append, Bytes, codes,
  str_eq, str_eq_iff, str_eq_refl, is_empty, is_upper, is_digit, is_space, lower_byte, upper_byte,
  to_lower, to_upper, trim_left, trim_space, strip_prefix, contains_byte, equal_fold, Map, lookup,
  insert, delete, lookup-insert, lookup-delete, Distinct, insert-Distinct, delete-Distinct,
  delete_absent, count, count-insert, count-delete, tally, increment, decrement, tally-increment,
  tally-decrement, Result, ◌>>=◌, ◌>>◌, refuse_if, >>=-eq-ok, ℤ, pos_part, neg_part, ◌≤ℤ◌, ltb_ℤ,
  ok, err, pos, negsuc, ℕ, zero, suc, ◌+◌, ◌-◌, ◌*◌, ◌/◌, ◌%◌, ◌^◌, ◌≤◌, ◌<◌, min, bit_xor, String,
  ◌≡◌, refl, sym, ap, subst, ◌∙◌, ◌≢◌, ◌↔◌, ◌⊎◌, inl, inr, Bool, true, false, not, ◌&&◌, ◌||◌,
  Option, none, some, List, [], ◌∷◌, ◌++◌, map, arith,
}
use Decimal.{show, atoi}

-- `[a-z0-9]`.
abbrev pub is_alnum : ℕ → Bool
is_alnum c = (leb b'a' c && leb c b'z') || is_digit c

-- `[a-z0-9-]`.
abbrev pub is_inner : ℕ → Bool
is_inner c = is_alnum c || c == b'-'

-- `[a-z0-9-]{0,n}[a-z0-9]$`.
unfoldable pub matches_tail : ℕ → Bytes → Bool
matches_tail n [] = false
matches_tail n (c ∷ []) = is_alnum c
matches_tail zero (c ∷ d ∷ s) = false
matches_tail (suc n) (c ∷ d ∷ s) = is_inner c && matches_tail n (d ∷ s)

-- `^[a-z0-9]([a-z0-9-]{0,61}[a-z0-9])?$`.
unfoldable pub subdomain_regex : Bytes → Bool
unfolding matches_tail
subdomain_regex [] = false
subdomain_regex (c ∷ []) = is_alnum c
subdomain_regex (c ∷ d ∷ s) = is_alnum c && matches_tail 61 (d ∷ s)

unfoldable pub validate_subdomain : Bytes → Bool
unfolding subdomain_regex
validate_subdomain s = if ltb (length s) 3 || ltb 63 (length s) then false else subdomain_regex s

abbrev pub reserved_subdomains : List Bytes
reserved_subdomains = map codes (
    "www" ∷ "api" ∷ "admin" ∷ "app" ∷ "mail" ∷ "ftp" ∷ "blog" ∷ "shop" ∷ "status" ∷ "health"
    ∷ "test" ∷ "dev" ∷ "staging" ∷ [])

unfoldable pub is_reserved : Bytes → Bool
unfolding str_eq
is_reserved s = any (str_eq s) reserved_subdomains

abbrev pub subdomain_chars : Bytes
subdomain_chars = codes "abcdefghijklmnopqrstuvwxyz0123456789"

abbrev pub default_subdomain_length : ℕ
default_subdomain_length = 6

-- The loop of `GenerateSubdomain`; `rand i` is what `rand.Int` returns for position `i`.
unfoldable pub draw_chars : (ℕ → ℕ) → ℕ → ℕ → Bytes
draw_chars rand i zero = []
draw_chars rand i (suc n) = get_or subdomain_chars (rand i) 0 ∷ draw_chars rand (suc i) n

unfoldable pub generate_subdomain : ℕ → (ℕ → ℕ) → Bytes
unfolding draw_chars
generate_subdomain n rand = draw_chars rand 0 (if n == 0 then default_subdomain_length else n)

-- `rand.Int(rand.Reader, n)` returns a number in [0, n).
abbrev pub IsBelow : ℕ → (ℕ → ℕ) → Type 0
IsBelow n rand = (i : ℕ) → rand i < n

-- `fmt.Sprintf("tcp-%d", port)`.
unfoldable pub tcp_name : ℕ → Bytes
unfolding show
tcp_name port = codes "tcp-" ++ show port

-- The port that a number read by `strconv.Atoi` stands for.
abbrev port_of : ℤ → Option ℕ
port_of (pos n) = if ltb n 1 || ltb 65535 n then none else some n
port_of (negsuc n) = none

abbrev bind_option : {A B : Type 0} → Option A → (A → Option B) → Option B
bind_option none f = none
bind_option (some a) f = f a

abbrev non_empty : Bytes → Option Bytes
non_empty [] = none
non_empty (c ∷ s) = some (c ∷ s)

unfoldable pub parse_tcp_subdomain_port : Bytes → Option ℕ
unfolding strip_prefix
parse_tcp_subdomain_port subdomain =
    bind_option (strip_prefix (codes "tcp-") subdomain)
      λ rest. bind_option (non_empty rest) λ port_str. bind_option (atoi port_str) port_of

abbrev pub http : Bytes
http = codes "http"

abbrev pub https : Bytes
https = codes "https"

abbrev pub tcp : Bytes
tcp = codes "tcp"

-- The family that a reservation is stored under.
abbrev family_of : Bytes → Bytes
family_of t = if str_eq t http || str_eq t https then http else if str_eq t tcp then tcp else t

unfoldable pub normalize_tunnel_type : Bytes → Bytes
unfolding str_eq trim_space to_lower
normalize_tunnel_type t = family_of (to_lower (trim_space t))

pub record TunnelUrlBuilder : Type 0 where
  pub tunnel_domain : Bytes
  pub public_port : ℕ

unfoldable pub build_http_url : TunnelUrlBuilder → Bytes → Bytes
unfolding show
build_http_url b subdomain =
    if b.public_port == 443
    then codes "https://" ++ subdomain ++ codes "." ++ b.tunnel_domain
    else codes "https://"
      ++ subdomain
      ++ codes "."
      ++ b.tunnel_domain
      ++ codes ":"
      ++ show b.public_port

unfoldable pub build_tcp_url : TunnelUrlBuilder → ℕ → Bytes
unfolding show
build_tcp_url b port = codes "tcp://" ++ b.tunnel_domain ++ codes ":" ++ show port

unfoldable pub build_url : TunnelUrlBuilder → Bytes → Bytes → ℕ → Bytes
unfolding str_eq build_http_url build_tcp_url
build_url b subdomain tunnel_type port =
    if str_eq tunnel_type http || str_eq tunnel_type https
    then build_http_url b subdomain
    else build_tcp_url b port
