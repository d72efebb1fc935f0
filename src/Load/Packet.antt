-- ===== src/Load/Packet.antt =====
-- scripts/ntp-load/main.go: the requests that `sendLoop` writes, and what `recvLoop` reads from a
-- reply. A `uint64` is a number below 2 ^ 64.
use ntp_server.Base.{
  ℕ, zero, suc, ◌+◌, ◌*◌, ◌/◌, ◌%◌, ◌^◌, List, [], ◌∷◌, ◌++◌, length, set, take, replicate, Option,
  none, some, ltb, if◌then◌else◌,
}
use ntp_server.Frame.Access.{sub}

-- `n` bytes in network order, as `binary.BigEndian.PutUint64` writes 8
unfoldable pub put_bytes : ℕ → ℕ → List ℕ
put_bytes zero v = []
put_bytes (suc n) v = put_bytes n (v / 256) ++ ((v % 256) ∷ [])

-- the value of bytes in network order, as `binary.BigEndian.Uint64` reads 8
unfoldable pub get_bytes_from : ℕ → List ℕ → ℕ
get_bytes_from v [] = v
get_bytes_from v (b ∷ bs) = get_bytes_from (v * 256 + b) bs

-- `ntpPacket`
unfoldable pub ntp_packet : ℕ → List ℕ
ntp_packet cookie = let buf = set (replicate 48 0) 0 0x23 in take 40 buf ++ put_bytes 8 cookie

-- `cookieBase` of worker `i`
unfoldable pub cookie_base : ℕ → ℕ
cookie_base i = i * 2 ^ 48 % 2 ^ 64

-- `counter.Add(1)`
unfoldable pub add_one : ℕ → ℕ
add_one counter = (counter + 1) % 2 ^ 64

-- the cookie of a reply of `n` bytes in the buffer, none if it is skipped
unfoldable pub cookie_of_reply : List ℕ → Option ℕ
cookie_of_reply reply =
    if ltb (length reply) 48 then none else some (get_bytes_from 0 (sub reply 24 32))
