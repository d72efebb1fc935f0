-- ===== src/Frame/Encode.antt =====
-- What `ParseNTPFrame` of exporter/internal/ntpframe/frame.go reads back from a frame that was built
-- from its fields.
use mathlib.Core.List.{append_assoc}
use native.Mathlib.Nat.{add-zero}
use ntp_server.Base.{
  ℕ, ◌⊎◌, ap, list_eqb, ◌+◌, ◌*◌, ◌/◌, ◌%◌, ◌<◌, ◌≡◌, ◌∙◌, refl, inl, inr, Option, none, some, List,
  [], ◌∷◌, ◌++◌, arith, length, length-append, leb→le, Bool-cases, nat_eq, string_eq, leb,
}
use ntp_server.Frame.{
  NetLib, Network, request, response, word_at, ethernet, network, direction_of, xid_of, application,
  transport, parse_ntp_frame, ip_proto_udp,
}
use ntp_server.Frame.Access.{accept, slice_from, ◌>>=◌, at, slice-sub, at-byte}
use ntp_server.Frame.Prefix.{
  length-append_add, ltb-append, word_at-append, word_at-append_here, slice_from-append,
}
use ntp_server.Frame.Layers.{
  ipv4_head, ipv6_head, ethernet_untagged, ethernet_tagged, length-ipv4_head, network_ipv4-append,
  network_ipv6-append,
}
use ntp_server.Frame.Wire.{
  Header, v4, v6, Packet, HasHeader, IsPacket, ethernet_bytes, udp_bytes, ip_bytes, link_bytes,
  encode, family_of, reading, describe,
}

ethernet-encode :
    (macs : List ℕ) (tag : Option (ℕ × ℕ)) (hi lo : ℕ) (rest : List ℕ)
    → length macs ≡ 12
    → lo < 256
    → hi < 0x81 ⊎ 0x81 < hi
    → ethernet (ethernet_bytes macs tag hi lo ++ rest)
      ≡ accept (hi * 256 + lo, length (ethernet_bytes macs tag hi lo))
ethernet-encode macs none hi lo rest m b h =
    let e : length (macs ++ (hi ∷ lo ∷ [])) ≡ 14 =
      omega (arith, length-append {0} macs (hi ∷ lo ∷ [])) in
    rw (append_assoc, e) (ethernet_untagged macs m hi lo rest b h)
ethernet-encode macs (some (t, u)) hi lo rest m b h =
    let tail : List ℕ = 0x81 ∷ 0x00 ∷ t ∷ u ∷ hi ∷ lo ∷ [] in
    let e : length (macs ++ tail) ≡ 18 = omega (arith, length-append {0} macs tail) in
    rw (append_assoc, e) (ethernet_tagged macs m hi lo rest t u)

module _ (net : NetLib) (p : Packet) (off : ℕ) where
  abbrev network_of : Network
  network_of = record { src = p.src; dst = p.dst; family = family_of p.header; off = off }

  application-request :
      application net network_of (request, p.src) p.payload
      ≡ accept (reading net p request p.src 40)
  unfolding application xid_of list_eqb
  application-request = elim (Bool-cases (leb 48 (length p.payload))) [
    | inl long ↦
        let n = leb→le 48 (length p.payload) long in
        rw (long, at-byte p.payload 0 (omega arith), slice-sub p.payload 40 48 (omega arith) n)
    | inr short ↦ rw short
  ]

  application-response :
      application net network_of (response, p.dst) p.payload
      ≡ accept (reading net p response p.dst 24)
  unfolding application xid_of list_eqb
  application-response = elim (Bool-cases (leb 48 (length p.payload))) [
    | inl long ↦
        let n = leb→le 48 (length p.payload) long in
        rw (
          long,
          at-byte p.payload 0 (omega arith),
          slice-sub p.payload 24 32 (omega arith) (omega arith),
        )
    | inr short ↦ rw short
  ]

  application-describe :
      (do d ← direction_of network_of p.sport p.dport; application net network_of d p.payload)
      ≡ describe net p
  unfolding direction_of describe
  application-describe = ground (arith, application-request, application-response)

word_at_pair : (n : ℕ) (a : List ℕ) → word_at ((n / 256) ∷ (n % 256) ∷ a) 0 ≡ accept n
unfolding word_at at
word_at_pair n a = ap accept (omega arith)

word_at_second : (x y n : ℕ) (a : List ℕ) → word_at (x ∷ y ∷ (n / 256) ∷ (n % 256) ∷ a) 2 ≡ accept n
unfolding word_at at
word_at_second x y n a = ap accept (omega arith)

slice_from-zero : (ys : List ℕ) → slice_from ys 0 ≡ accept ys
unfolding slice_from
slice_from-zero ys = ground arith

slice_from_tail : (xs ys : List ℕ) (k : ℕ) → length xs ≡ k → slice_from (xs ++ ys) k ≡ accept ys
slice_from_tail xs ys k h = rw add-zero at (slice_from-append xs ys k h 0) ∙ slice_from-zero ys

transport-udp :
    (net : NetLib) (p : Packet) (pre : List ℕ) (h : Network)
    → length p.length_and_checksum ≡ 4
    → length pre ≡ h.off
    → transport net (pre ++ udp_bytes p) h
      ≡ (do d ← direction_of h p.sport p.dport; application net h d p.payload)
unfolding transport
transport-udp net p pre h c e =
    let ports : List ℕ =
      (p.sport / 256)
      ∷ (p.sport % 256)
      ∷ (p.dport / 256)
      ∷ (p.dport % 256)
      ∷ p.length_and_checksum in
    let n : length ports ≡ 8 = omega arith in
    rw
      (
        ltb-append pre (udp_bytes p) h.off e 8,
        length-append_add ports p.payload 8 n,
        word_at-append_here pre (udp_bytes p) h.off e,
        word_at_pair p.sport,
        word_at-append pre (udp_bytes p) h.off e 2,
        word_at_second,
        slice_from-append pre (udp_bytes p) h.off e 8,
        slice_from_tail ports p.payload 8 n,
      )
      (ground arith)

module _ (a b c d e f : List ℕ) where
  regroup : a ++ (b ++ (c ++ (d ++ (e ++ f)))) ≡ (a ++ (b ++ (c ++ (d ++ e)))) ++ f
  regroup = simp append_assoc

  length_group :
      length (a ++ (b ++ (c ++ (d ++ e))))
      ≡ length a + (length b + (length c + (length d + length e)))
  length_group = omega (
    arith,
    length-append {0} a (b ++ (c ++ (d ++ e))),
    length-append {0} b (c ++ (d ++ e)),
    length-append {0} c (d ++ e),
    length-append {0} d e,
  )

abbrev udp_offset : Packet → Header → ℕ
udp_offset p (v4 version words mid check options) =
    length (link_bytes p (v4 version words mid check options)) + (20 + words * 4)
udp_offset p (v6 mid hop) = length (link_bytes p (v6 mid hop)) + 40

parse-layers :
    (net : NetLib) (p : Packet) (h : Header)
    → length p.macs ≡ 12
    → length p.length_and_checksum ≡ 4
    → HasHeader h p.src p.dst
    → parse_ntp_frame net (link_bytes p h ++ ip_bytes h p.src p.dst (udp_bytes p)) ≡ (
        let n : Network = record {
          src = p.src;
          dst = p.dst;
          family = family_of h;
          off = udp_offset p h;
        } in
        do d ← direction_of n p.sport p.dport; application net n d p.payload)
unfolding parse_ntp_frame network
parse-layers net p (v4 version words mid check options) m c w =
    let first : ℕ = version * 16 + (5 + words) in
    let link = ethernet_bytes p.macs p.tag 0x08 0x00 in
    let head = ipv4_head first mid check in
    let udp = udp_bytes p in
    let ip = head ++ (p.src ++ (p.dst ++ (options ++ udp))) in
    rw
      (
        ethernet-encode p.macs p.tag 0x08 0x00 ip m (omega arith) (omega arith),
        network_ipv4-append link (length link) refl p.src p.dst first words mid check options udp
            (omega arith) w.1 w.2 w.4 w.5 w.3,
        regroup link head p.src p.dst options udp,
      )
      (transport-udp net p _ _ c (
        omega (
          arith,
          length_group link head p.src p.dst options udp,
          length-ipv4_head first mid check w.1 w.2,
        )))
parse-layers net p (v6 mid hop) m c w =
    let link = ethernet_bytes p.macs p.tag 0x86 0xDD in
    let head = ipv6_head mid hop in
    let udp = udp_bytes p in
    rw
      (
        ethernet-encode p.macs p.tag 0x86 0xDD (head ++ (p.src ++ (p.dst ++ udp))) m (omega arith)
            (omega arith),
        network_ipv6-append link (length link) refl p.src p.dst mid hop udp w.0 w.1 w.2,
        regroup link head p.src p.dst [] udp,
      )
      (transport-udp net p _ _ c (
        omega (
          arith,
          length_group link head p.src p.dst [] udp,
          length-append {0} mid (ip_proto_udp ∷ hop ∷ []),
        )))

-- `ParseNTPFrame` reads back exactly what a frame says: for every UDP packet over IPv4 (with any
-- options) or IPv6, VLAN-tagged or not, with fields of the right widths, the result is the packet's
-- description: a request of its source if it goes to port 123, else a response to its destination
-- if it comes from port 123, else no NTP frame; version and XID only of a payload of 48 bytes.
pub parse_ntp_frame-encode :
    (net : NetLib) (p : Packet) → IsPacket p → parse_ntp_frame net (encode p) ≡ describe net p
unfolding encode
parse_ntp_frame-encode net p w =
    parse-layers net p p.header w.macs w.length_and_checksum w.header
    ∙ application-describe net p (udp_offset p p.header)
