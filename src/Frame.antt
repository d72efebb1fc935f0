-- ===== src/Frame.antt =====
-- exporter/internal/ntpframe/frame.go: `ParseNTPFrame` and `ParseFrame`. A frame is the list of its
-- bytes; `hi << 8 | lo` of two bytes is `hi * 256 + lo`, `b & 0x0F` is `b % 16`, and
-- `(b >> 3) & 7` is `b / 8 % 8`. An access out of range is the outcome `fault`.
pub mod Access
pub mod Safety
pub mod Prefix
pub mod Layers
pub mod Wire
pub mod Encode
use ntp_server.Base.{
  ℕ, ◌+◌, ◌*◌, ◌/◌, ◌%◌, Bool, true, false, not, ◌&&◌, ◌||◌, Option, none, some, List, [], ◌∷◌, ltb,
  leb, length, ◌==◌, nat_eq, string_eq, GoString, bytes, if◌then◌else◌,
}
use Access.{Outcome, accept, reject, ◌>>=◌, ◌>>◌, reject_if, at, slice, slice_from}

abbrev pub eth_hdr_len : ℕ
eth_hdr_len = 14

abbrev pub ethertype_ipv4 : ℕ
ethertype_ipv4 = 0x0800

abbrev pub ethertype_ipv6 : ℕ
ethertype_ipv6 = 0x86DD

abbrev pub ethertype_vlan : ℕ
ethertype_vlan = 0x8100

abbrev pub ip_proto_udp : ℕ
ip_proto_udp = 17

abbrev pub ntp_port : ℕ
ntp_port = 123

abbrev pub ntp_payload_min : ℕ
ntp_payload_min = 48

abbrev pub request : GoString
request = bytes "request"

abbrev pub response : GoString
response = bytes "response"

abbrev pub ipv4 : GoString
ipv4 = bytes "ipv4"

abbrev pub ipv6 : GoString
ipv6 = bytes "ipv6"

-- What the parser uses of package `net`: `IP.String` and `ParseIP` (a nil address is the empty one).
pub record NetLib : Type 0 where
  pub to_string : List ℕ → GoString
  pub parse_ip : GoString → List ℕ

-- `XID` is nil (`none`) if the payload is shorter than `ntp_payload_min`.
pub record Parsed : Type 0 where
  pub direction : GoString
  pub ip : List ℕ
  pub src_ip : List ℕ
  pub dst_ip : List ℕ
  pub family : GoString
  pub version : GoString
  pub has_version : Bool
  pub xid : Option (List ℕ)

-- two bytes in network order, as `int(frame[i])<<8 | int(frame[i+1])`
unfoldable pub word_at : List ℕ → ℕ → Outcome ℕ
word_at frame i = do hi ← at frame i; lo ← at frame (i + 1); accept (hi * 256 + lo)

-- of the first byte of the payload
unfoldable pub ntp_version : ℕ → GoString
ntp_version b = let v = b / 8 % 8 in if leb 1 v && leb v 4 then (b'0' + v) ∷ [] else bytes "other"

-- The ethertype and the offset of the network header, past a VLAN tag.
unfoldable pub ethernet : List ℕ → Outcome (ℕ × ℕ)
ethernet frame = do
  reject_if (ltb (length frame) eth_hdr_len)
  ethertype ← word_at frame 12
  if ethertype == ethertype_vlan
      then (do
        reject_if (ltb (length frame) (eth_hdr_len + 4))
        inner ← word_at frame (eth_hdr_len + 2)
        accept (inner, eth_hdr_len + 4))
      else accept (ethertype, eth_hdr_len)

-- The local variables after the `switch ethertype`; `off` is the offset of the UDP header.
pub record Network : Type 0 where
  pub src : List ℕ
  pub dst : List ℕ
  pub family : GoString
  pub off : ℕ

unfoldable pub network_ipv4 : List ℕ → ℕ → Outcome Network
network_ipv4 frame off = do
  reject_if (ltb (length frame) (off + 20))
  first ← at frame off
  let ihl = first % 16 * 4
  reject_if (ltb ihl 20 || ltb (length frame) (off + ihl))
  protocol ← at frame (off + 9)
  reject_if (not (protocol == ip_proto_udp))
  src ← slice frame (off + 12) (off + 16)
  dst ← slice frame (off + 16) (off + 20)
  accept (record { src = src; dst = dst; family = ipv4; off = off + ihl })

unfoldable pub network_ipv6 : List ℕ → ℕ → Outcome Network
network_ipv6 frame off = do
  reject_if (ltb (length frame) (off + 40))
  protocol ← at frame (off + 6)
  reject_if (not (protocol == ip_proto_udp))
  src ← slice frame (off + 8) (off + 24)
  dst ← slice frame (off + 24) (off + 40)
  accept (record { src = src; dst = dst; family = ipv6; off = off + 40 })

unfoldable pub network : List ℕ → ℕ → ℕ → Outcome Network
network frame ethertype off =
    if ethertype == ethertype_ipv4
    then network_ipv4 frame off
    else if ethertype == ethertype_ipv6
    then network_ipv6 frame off
    else reject

-- `dport == NTPPort` first, then `sport == NTPPort`: the direction and the client's address
unfoldable pub direction_of : Network → ℕ → ℕ → Outcome (GoString × List ℕ)
direction_of h sport dport =
    if dport == ntp_port
    then accept (request, h.src)
    else if sport == ntp_port
    then accept (response, h.dst)
    else reject

-- The XID: the transmit timestamp of a request, the origin timestamp of a response.
unfoldable pub xid_of : GoString → List ℕ → Outcome (List ℕ)
xid_of direction payload = if direction == request then slice payload 40 48 else slice payload 24 32

module _ (net : NetLib) where
  unfoldable pub application : Network → GoString × List ℕ → List ℕ → Outcome Parsed
  application h (direction, client) payload =
      let p : Parsed = record {
        direction = direction;
        ip = net.parse_ip (net.to_string client);
        src_ip = h.src;
        dst_ip = h.dst;
        family = h.family;
        version = [];
        has_version = false;
        xid = none;
      } in
      if leb ntp_payload_min (length payload)
      then (do
        first ← at payload 0
        xid ← xid_of direction payload
        accept (record p { has_version = true; version = ntp_version first; xid = some xid }))
      else accept p

  unfoldable pub transport : List ℕ → Network → Outcome Parsed
  transport frame h = do
    reject_if (ltb (length frame) (h.off + 8))
    sport ← word_at frame h.off
    dport ← word_at frame (h.off + 2)
    payload ← slice_from frame (h.off + 8)
    d ← direction_of h sport dport
    application h d payload

  -- `ParseNTPFrame`
  unfoldable pub parse_ntp_frame : List ℕ → Outcome Parsed
  parse_ntp_frame frame = do
    (ethertype, off) ← ethernet frame
    h ← network frame ethertype off
    transport frame h

  -- `ParseFrame`: `("", "", false)` is `reject`
  unfoldable pub parse_frame : List ℕ → Outcome (GoString × GoString)
  parse_frame frame = do p ← parse_ntp_frame frame; accept (p.direction, net.to_string p.ip)
