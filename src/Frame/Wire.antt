-- ===== src/Frame/Wire.antt =====
-- Ethernet frames that carry UDP over IPv4 or IPv6, built from their fields, and the description of
-- one in the terms of exporter/internal/ntpframe/frame.go.
use ntp_server.Base.{
  ℕ, ◌+◌, ◌*◌, ◌/◌, ◌%◌, ◌≤◌, ◌≡◌, Option, none, some, List, [], ◌∷◌, ◌++◌, length, GoString, ◌==◌,
  nat_eq, string_eq, leb, if◌then◌else◌,
}
use ntp_server.Frame.{NetLib, Parsed, request, response, ipv4, ipv6, ntp_version, ntp_port}
use ntp_server.Frame.Access.{Outcome, accept, reject, byte, sub}
use ntp_server.Frame.Layers.{ipv4_head, ipv6_head}

-- An IPv4 header has the version, `words` words of options, bytes 1 to 8, the checksum and the
-- options; an IPv6 header has bytes 0 to 5 and the hop limit.
pub data Header : Type 0 where
  v4 : (version words : ℕ) (mid check options : List ℕ) → Header
  v6 : (mid : List ℕ) (hop : ℕ) → Header

pub record Packet : Type 0 where
  pub macs : List ℕ
  pub tag : Option (ℕ × ℕ)
  pub header : Header
  pub src : List ℕ
  pub dst : List ℕ
  pub sport : ℕ
  pub dport : ℕ
  pub length_and_checksum : List ℕ
  pub payload : List ℕ

abbrev pub HasHeader : Header → List ℕ → List ℕ → Type 0
HasHeader (v4 version words mid check options) src dst =
    (words ≤ 10)
    × (length mid ≡ 8)
    × (length check ≡ 2)
    × (length options ≡ words * 4)
    × (length src ≡ 4)
    × (length dst ≡ 4)
HasHeader (v6 mid hop) src dst = (length mid ≡ 6) × (length src ≡ 16) × (length dst ≡ 16)

-- the fields have their widths
pub record IsPacket (p : Packet) : Type 0 where
  pub macs : length p.macs ≡ 12
  pub header : HasHeader p.header p.src p.dst
  pub length_and_checksum : length p.length_and_checksum ≡ 4

abbrev pub ethernet_bytes : List ℕ → Option (ℕ × ℕ) → ℕ → ℕ → List ℕ
ethernet_bytes macs none hi lo = macs ++ (hi ∷ lo ∷ [])
ethernet_bytes macs (some (t, u)) hi lo = macs ++ (0x81 ∷ 0x00 ∷ t ∷ u ∷ hi ∷ lo ∷ [])

abbrev pub udp_bytes : Packet → List ℕ
udp_bytes p =
    (p.sport / 256)
    ∷ (p.sport % 256)
    ∷ (p.dport / 256)
    ∷ (p.dport % 256)
    ∷ (p.length_and_checksum ++ p.payload)

abbrev pub ip_bytes : Header → List ℕ → List ℕ → List ℕ → List ℕ
ip_bytes (v4 version words mid check options) src dst rest =
    ipv4_head (version * 16 + (5 + words)) mid check ++ (src ++ (dst ++ (options ++ rest)))
ip_bytes (v6 mid hop) src dst rest = ipv6_head mid hop ++ (src ++ (dst ++ rest))

abbrev pub link_bytes : Packet → Header → List ℕ
link_bytes p (v4 _ _ _ _ _) = ethernet_bytes p.macs p.tag 0x08 0x00
link_bytes p (v6 _ _) = ethernet_bytes p.macs p.tag 0x86 0xDD

-- The frame on the wire.
unfoldable pub encode : Packet → List ℕ
encode p = link_bytes p p.header ++ ip_bytes p.header p.src p.dst (udp_bytes p)

abbrev pub family_of : Header → GoString
family_of (v4 _ _ _ _ _) = ipv4
family_of (v6 _ _) = ipv6

-- What a frame says of the client at address `client`; its XID starts at byte `at` of the payload.
abbrev pub reading : NetLib → Packet → GoString → List ℕ → ℕ → Parsed
reading net p direction client start =
    let whole = leb 48 (length p.payload) in
    record {
      direction = direction;
      ip = net.parse_ip (net.to_string client);
      src_ip = p.src;
      dst_ip = p.dst;
      family = family_of p.header;
      version = if whole then ntp_version (byte p.payload 0) else [];
      has_version = whole;
      xid = if whole then some (sub p.payload start (start + 8)) else none;
    }

-- A packet to port 123 is a request of its source, any other from port 123 a response to its
-- destination, and no other packet is NTP.
unfoldable pub describe : NetLib → Packet → Outcome Parsed
describe net p =
    if p.dport == ntp_port
    then accept (reading net p request p.src 40)
    else if p.sport == ntp_port
    then accept (reading net p response p.dst 24)
    else reject
