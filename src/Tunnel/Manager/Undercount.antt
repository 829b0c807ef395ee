-- ===== src/Tunnel/Manager/Undercount.antt =====
-- The per-address counter after tunnels of identified clients.
use drip_ex.Base.{Bytes, str_eq_refl, tally, tally-decrement, ◌+◌, ◌<◌, ◌≡◌, ◌≢◌, some, [], arith}
use drip_ex.Tunnel.Shards.{Connection, find, total}
use drip_ex.Tunnel.Shards.Counting.{total-remove}
use drip_ex.Tunnel.Manager.{Manager, unregister, settle_ip, settle_account}
use drip_ex.Tunnel.Manager.Books.{unowned_from, IsValid}
use drip_ex.Tunnel.Manager.Validity.{unregister_present, is_empty_iff}

-- In a manager in order, where the counter of an address is positive and equals the number of
-- tunnels without a client of that address, removing a tunnel of an identified client from the
-- address takes a slot off it all the same, so that it counts one tunnel too few.
pub unregister_undercounts :
    (name : Bytes) (m : Manager) (c : Connection)
    → IsValid m
    → find m.shards name ≡ some c
    → c.client_id ≢ []
    → c.remote_ip ≢ []
    → tally c.remote_ip m.tunnels_by_ip ≡ total (unowned_from c.remote_ip) m.shards
    → 0 < tally c.remote_ip m.tunnels_by_ip
    → tally c.remote_ip (unregister name m).tunnels_by_ip + 1
      ≡ total (unowned_from c.remote_ip) (unregister name m).shards
unfolding settle_ip settle_account
unregister_undercounts name m c v e owned addressed exact some_left =
    rw (unregister_present name m c e) (
      ground (
        arith,
        total-remove (unowned_from c.remote_ip) m.shards name c v.sharded e,
        tally-decrement c.remote_ip c.remote_ip m.tunnels_by_ip,
        str_eq_refl c.remote_ip,
        is_empty_iff c.remote_ip,
        is_empty_iff c.client_id,
      ))
