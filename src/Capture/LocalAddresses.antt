-- ===== src/Capture/LocalAddresses.antt =====
-- exporter/internal/capture/localips.go: the cache of this host's addresses. An address is the
-- list of its bytes, a nil one is empty; `IP.String` is of package `net`. What `l.now()` and
-- `l.lookup()` answer during a call is an argument of it.
use ntp_server.Base.{
  ℕ, ◌+◌, Bool, false, ◌||◌, Option, none, some, List, [], ◌∷◌, leb, ◌==◌, string_eq, GoString,
  if◌then◌else◌,
}
use ntp_server.Frame.{NetLib}

-- an address that `net.InterfaceAddrs` may list
pub data Addr : Type 0 where
  ip_net ip_addr : List ℕ → Addr
  other_addr : Addr

-- `LocalIPs`; the set is the list of its keys
pub record LocalIps : Type 0 where
  pub set : List GoString
  pub last_load : ℕ
  pub interval : ℕ

-- The answers during a call: the time at the test of the age, the addresses (none is an error), and
-- the time at the end of a reload.
pub record Lookup : Type 0 where
  pub now : ℕ
  pub addrs : Option (List Addr)
  pub now_loaded : ℕ

unfoldable pub member : GoString → List GoString → Bool
member s [] = false
member s (t ∷ set) = t == s || member s set

-- `next[ip.String()] = struct{}{}` unless the address is nil
unfoldable pub put_ip : NetLib → List ℕ → List GoString → List GoString
put_ip net [] set = set
put_ip net (b ∷ ip) set = net.to_string (b ∷ ip) ∷ set

unfoldable pub ips_of : NetLib → List Addr → List GoString
ips_of net [] = []
ips_of net (ip_net ip ∷ addrs) = put_ip net ip (ips_of net addrs)
ips_of net (ip_addr ip ∷ addrs) = put_ip net ip (ips_of net addrs)
ips_of net (other_addr ∷ addrs) = ips_of net addrs

-- `reload`: a failed lookup keeps the old set, and counts as a load
unfoldable pub reload : NetLib → Lookup → LocalIps → LocalIps
reload net r l = elim r.addrs [
  | none ↦ record l { last_load = r.now_loaded }
  | some addrs ↦ record l { set = ips_of net addrs; last_load = r.now_loaded }
]

-- `NewLocalIPs`
unfoldable pub new_local_ips : NetLib → Lookup → ℕ → LocalIps
new_local_ips net r interval =
    reload net r (record { set = []; last_load = 0; interval = interval })

-- `maybeReload`
unfoldable pub maybe_reload : NetLib → Lookup → LocalIps → LocalIps
maybe_reload net r l = if leb (l.last_load + l.interval) r.now then reload net r l else l

-- `Contains`
unfoldable pub contains : NetLib → Lookup → LocalIps → List ℕ → LocalIps × Bool
contains net r l ip = let l' = maybe_reload net r l in (l', member (net.to_string ip) l'.set)
