-- ===== src/Examples/Registering.antt =====
-- The tunnel manager at concrete inputs.
use drip_ex.Base.{
  if◌then◌else◌, Bytes, codes, str_eq, lookup, insert, delete, count, tally, increment, decrement,
  ok, err, pos, ℕ, ◌+◌, ◌*◌, ◌%◌, ◌≤◌, ◌<◌, ◌≡◌, refl, inl, true, false, none, some, arith,
}
use drip_ex.Names.{subdomain_regex, matches_tail, validate_subdomain, is_reserved}
use drip_ex.Tunnel.Shards.{find, total, shard_index, fnv32a, put_tunnel}
use drip_ex.Tunnel.RateLimiter.{check_and_increment, decrement_hits}
use drip_ex.Tunnel.Manager.{
  Manager, ManagerConfig, Owner, anonymous, new_manager_with_config, register_owned, unregister,
  get, is_limited, admit, reserve_global, reserve_account, reserve_ip, take_ip_slot, name_tunnel,
  claim, settle, register_subdomain, owned_connection, subdomain_taken, rollback_all, claim_custom,
  rollback_global, rollback_per_account, rollback_per_ip, rollback_rate_limit,
}
use drip_ex.Tunnel.Manager.Books.{
  of_account, unowned_from, IsValid, HasIpBooks, new-IsValid, new-HasIpBooks,
}
use drip_ex.Tunnel.Manager.Registry.{IsRandom}
use drip_ex.Tunnel.Manager.Validity.{register_owned-IsValid, unregister-IsValid}
use drip_ex.Tunnel.Manager.Caps.{get-register_owned, account_limit}
use drip_ex.Tunnel.Manager.Progress.{HasRoom, register_owned_succeeds}
use drip_ex.Tunnel.Manager.Undercount.{unregister_undercounts}

abbrev settings : ManagerConfig
settings = record {
  max_tunnels = pos 100;
  max_tunnels_per_ip = pos 5;
  rate_limit = pos 3;
  rate_limit_window = pos 1000;
}

abbrev fresh : Manager
fresh = new_manager_with_config settings

fresh-IsValid : IsValid fresh
fresh-IsValid = new-IsValid settings

fresh-HasIpBooks : HasIpBooks fresh
fresh-HasIpBooks = new-HasIpBooks settings

abbrev dice : ℕ → ℕ → ℕ
dice i j = (i * 7 + j * 5 + 3) % 36

dice-IsRandom : IsRandom dice
dice-IsRandom i j = omega arith

abbrev team : Owner
team = record { client_id = codes "laptop"; account_id = codes "team"; max_tunnels = 2 }

abbrev home : Bytes
home = codes "10.0.0.1"

-- The manager after an anonymous tunnel `acme` and one of the account.
abbrev one : Manager
one = (register_owned 10 dice (codes "acme") home anonymous fresh).0

one_books : IsValid one × HasIpBooks one
one_books =
    register_owned-IsValid 10 dice (codes "acme") home anonymous fresh dice-IsRandom fresh-IsValid
      fresh-HasIpBooks

abbrev two : Manager
two = (register_owned 20 dice (codes "web") home team one).0

register_owned-IsValid_example : IsValid two × HasIpBooks two
register_owned-IsValid_example =
    register_owned-IsValid 20 dice (codes "web") home team one dice-IsRandom one_books.0 one_books.1

unregister-IsValid_example :
    IsValid (unregister (codes "acme") one) × HasIpBooks (unregister (codes "acme") one)
unregister-IsValid_example = unregister-IsValid (codes "acme") one one_books.0 one_books.1

web_registers : register_owned 20 dice (codes "web") home team one ≡ (two, ok (codes "web"))
unfolding register_owned admit reserve_global reserve_account reserve_ip name_tunnel claim settle
    register_subdomain new_manager_with_config take_ip_slot check_and_increment lookup put_tunnel
    insert shard_index fnv32a validate_subdomain is_reserved is_limited subdomain_regex matches_tail
    claim_custom rollback_all rollback_global rollback_per_account rollback_per_ip
    rollback_rate_limit decrement_hits
web_registers = refl

acme_refused :
    register_owned 20 dice (codes "acme") home team one
    ≡ ((register_owned 20 dice (codes "acme") home team one).0, err subdomain_taken)
unfolding register_owned admit reserve_global reserve_account reserve_ip name_tunnel claim settle
    register_subdomain new_manager_with_config take_ip_slot check_and_increment lookup put_tunnel
    insert shard_index fnv32a validate_subdomain is_reserved is_limited subdomain_regex matches_tail
    claim_custom rollback_all rollback_global rollback_per_account rollback_per_ip
    rollback_rate_limit decrement_hits
acme_refused = refl

get-register_owned_example :
    (get one (codes "web") ≡ none)
    × (get two (codes "acme") ≡ (
        if str_eq (codes "web") (codes "acme")
        then some (owned_connection 20 home team (codes "web"))
        else get one (codes "acme")))
get-register_owned_example =
    get-register_owned 20 dice (codes "web") home team one two dice-IsRandom one_books.0
      (codes "web") (codes "acme") web_registers

account_limit_example : total (of_account (codes "team")) two.shards ≤ 2
account_limit_example =
    account_limit 20 dice (codes "web") home team one two dice-IsRandom one_books.0 (codes "web")
      (λ e. cc) (omega (arith)) web_registers

web_found : find two.shards (codes "web") ≡ some (owned_connection 20 home team (codes "web"))
unfolding register_owned admit reserve_global reserve_account reserve_ip name_tunnel claim settle
    register_subdomain new_manager_with_config take_ip_slot check_and_increment lookup put_tunnel
    insert shard_index fnv32a validate_subdomain is_reserved is_limited subdomain_regex matches_tail
    claim_custom rollback_all rollback_global rollback_per_account rollback_per_ip
    rollback_rate_limit decrement_hits find
web_found = refl

home_counted : tally home two.tunnels_by_ip ≡ total (unowned_from home) two.shards
unfolding register_owned admit reserve_global reserve_account reserve_ip name_tunnel claim settle
    register_subdomain new_manager_with_config take_ip_slot check_and_increment lookup put_tunnel
    insert shard_index fnv32a validate_subdomain is_reserved is_limited subdomain_regex matches_tail
    claim_custom rollback_all rollback_global rollback_per_account rollback_per_ip
    rollback_rate_limit decrement_hits total count decrement increment delete
home_counted = refl

one_of_home : tally home two.tunnels_by_ip ≡ 1
unfolding register_owned admit reserve_global reserve_account reserve_ip name_tunnel claim settle
    register_subdomain new_manager_with_config take_ip_slot check_and_increment lookup put_tunnel
    insert shard_index fnv32a validate_subdomain is_reserved is_limited subdomain_regex matches_tail
    claim_custom rollback_all rollback_global rollback_per_account rollback_per_ip
    rollback_rate_limit decrement_hits count decrement increment delete
one_of_home = refl

home_held : 0 < tally home two.tunnels_by_ip
home_held = omega (arith, one_of_home)

unregister_undercounts_example :
    tally home (unregister (codes "web") two).tunnels_by_ip + 1
    ≡ total (unowned_from home) (unregister (codes "web") two).shards
unregister_undercounts_example =
    unregister_undercounts (codes "web") two (owned_connection 20 home team (codes "web"))
      register_owned-IsValid_example.0 web_found (λ e. cc) (λ e. cc) home_counted home_held

fresh-HasRoom : HasRoom 10 home anonymous fresh
unfolding new_manager_with_config check_and_increment lookup
fresh-HasRoom = record {
  global = omega arith;
  account = inl refl;
  address = λ counted. (refl, omega arith);
}

web_valid : (validate_subdomain (codes "web") ≡ true) × (is_reserved (codes "web") ≡ false)
unfolding validate_subdomain subdomain_regex matches_tail is_reserved str_eq
web_valid = (refl, refl)

web_free : get fresh (codes "web") ≡ none
unfolding get find new_manager_with_config shard_index fnv32a lookup
web_free = refl

register_owned_succeeds_example :
    (register_owned 10 dice (codes "web") home anonymous fresh).1 ≡ ok (codes "web")
register_owned_succeeds_example =
    register_owned_succeeds 10 dice (codes "web") home anonymous fresh fresh-IsValid fresh-HasRoom
      web_valid.0 web_valid.1 web_free
