-- ===== src/Bpf/Passes.antt =====
-- The filter program of exporter/internal/ntpframe/frame.go and the parser: no untagged frame that the
-- parser accepts is dropped, unless it is a fragment.
use ntp_server.Base.{
  ℕ, ◌+◌, ◌*◌, ◌%◌, ◌≤◌, ◌≡◌, ◌≢◌, ◌⊎◌, ap, ◌∙◌, inl, inr, true, List, length, ltb, nat_eqb, nat_eq,
  Bool-cases, arith,
}
use ntp_server.Frame.{
  NetLib, Parsed, Network, word_at, ethernet, network, network_ipv4, network_ipv6, transport,
  application, direction_of, parse_ntp_frame, ethertype_ipv4, ethertype_ipv6, ethertype_vlan,
  ip_proto_udp, ntp_port,
}
use ntp_server.Frame.Access.{
  Outcome, accept, reject, fault, ◌>>=◌, byte, at-byte, slice-sub, slice_from-drop,
}
use ntp_server.Frame.Safety.{word_at-accepts}
use ntp_server.Bpf.{build_ntp_bpf}
use ntp_server.Bpf.Machine.{half, Machine, IsMachine}
use ntp_server.Bpf.Meaning.{
  verdict, passes, passes_ipv4, passes_ipv6, passes_ports, build_ntp_bpf-passes,
}
use Prim.Native.Nat.{bit_and}

-- what is accepted, if anything, satisfies `P`
abbrev Allows : {A : Type 0} → (A → Type 0) → Outcome A → Type 0
Allows P (accept a) = P a
Allows P reject = Unit
Allows P fault = Unit

Allows-bind :
    {A B : Type 0} (P : A → Type 0) (Q : B → Type 0) (o : Outcome A) (f : A → Outcome B)
    → Allows P o
    → ((a : A) → P a → Allows Q (f a))
    → Allows Q (o >>= f)
Allows-bind P Q (accept a) f h k = k a h
Allows-bind P Q reject f h k = tt
Allows-bind P Q fault f h k = tt

Allows-const : {A Q : Type 0} (o : Outcome A) → Q → Allows (λ a. Q) o
Allows-const (accept a) q = q
Allows-const reject q = tt
Allows-const fault q = tt

Allows-imp :
    {A : Type 0} (P Q : A → Type 0) (o : Outcome A)
    → ((a : A) → P a → Q a)
    → Allows P o
    → Allows Q o
Allows-imp P Q (accept a) step h = step a h
Allows-imp P Q reject step h = tt
Allows-imp P Q fault step h = tt

Allows-accept :
    {A : Type 0} (P : A → Type 0) (o : Outcome A) (a : A) → Allows P o → o ≡ accept a → P a
Allows-accept P (accept b) a h e = let same : b ≡ a = cc in rw same at h
Allows-accept P reject a h e = cc
Allows-accept P fault a h e = cc

module _ (frame : List ℕ) where
  ethernet-untagged :
      half frame 12 ≢ ethertype_vlan
      → Allows (λ r. (14 ≤ length frame) × (r.0 ≡ half frame 12) × (r.1 ≡ 14)) (ethernet frame)
  unfolding ethernet word_at
  ethernet-untagged untagged = ground (arith, at-byte frame 12, at-byte frame 13)

  -- the parts of `passes_ipv4` and `passes_ipv6` before the ports
  abbrev IsUdp4 : Network → Type 0
  IsUdp4 h =
      (24 ≤ length frame) × (byte frame 23 ≡ ip_proto_udp) × (h.off ≡ byte frame 14 % 16 * 4 + 14)

  abbrev IsUdp6 : Network → Type 0
  IsUdp6 h = (21 ≤ length frame) × (byte frame 20 ≡ ip_proto_udp) × (h.off ≡ 54)

  network_ipv4-IsUdp4 : Allows IsUdp4 (network_ipv4 frame 14)
  unfolding network_ipv4
  network_ipv4-IsUdp4 =
      ground
        (arith, at-byte frame 14, at-byte frame 23, slice-sub frame 26 30, slice-sub frame 30 34)

  network_ipv6-IsUdp6 : Allows IsUdp6 (network_ipv6 frame 14)
  unfolding network_ipv6
  network_ipv6-IsUdp6 =
      ground (arith, at-byte frame 20, slice-sub frame 22 38, slice-sub frame 38 54)

  direction_of-ports :
      (h : Network) (sport dport : ℕ)
      → Allows (λ d. (sport ≡ ntp_port) ⊎ (dport ≡ ntp_port)) (direction_of h sport dport)
  unfolding direction_of
  direction_of-ports h sport dport = ground arith

  -- the ports that the parser reads
  transport-ports :
      (net : NetLib) (h : Network)
      → Allows (λ p. passes_ports frame h.off ≡ true) (transport net frame h)
  unfolding transport passes_ports
  transport-ports net h = elim (Bool-cases (ltb (length frame) (h.off + 8))) [
    | inl short ↦ rw short tt
    | inr long ↦
        rw
          (
            long,
            word_at-accepts frame h.off (ground arith),
            word_at-accepts frame (h.off + 2) (ground arith),
            slice_from-drop frame (h.off + 8) (ground arith),
          )
          (Allows-bind _ _ (direction_of h _ _) _ (direction_of-ports h _ _)
            λ d port. Allows-const (application net h d _) (ground arith))
  ]

  network-passes :
      (h : Network)
      → (half frame 12 ≡ ethertype_ipv4 → bit_and (half frame 20) 0x1FFF ≡ 0)
      → 14 ≤ length frame
      → passes_ports frame h.off ≡ true
      → ((half frame 12 ≡ ethertype_ipv4) × IsUdp4 h)
        ⊎ ((half frame 12 ≡ ethertype_ipv6) × IsUdp6 h)
      → passes frame ≡ true
  unfolding passes passes_ipv4 passes_ipv6
  network-passes h whole long ports (inl (et, (size, udp, off))) =
      let here = rw off at ports in let first = whole et in ground arith
  network-passes h whole long ports (inr (et, (size, udp, off))) =
      let here = rw off at ports in ground arith

  network-IsUdp :
      (et : ℕ)
      → Allows
          (λ h. ((et ≡ ethertype_ipv4) × IsUdp4 h) ⊎ ((et ≡ ethertype_ipv6) × IsUdp6 h))
          (network frame et 14)
  unfolding network
  network-IsUdp et = elim (Bool-cases (nat_eqb et ethertype_ipv4)) [
    | inl v4 ↦ rw v4 (Allows-imp IsUdp4 _ _ (λ h u. inl (ground arith, u)) network_ipv4-IsUdp4)
    | inr other ↦ elim (Bool-cases (nat_eqb et ethertype_ipv6)) [
      | inl v6 ↦
          rw (other, v6) (Allows-imp IsUdp6 _ _ (λ h u. inr (ground arith, u)) network_ipv6-IsUdp6)
      | inr none_of ↦ rw (other, none_of) tt
    ]
  ]

  parse_ntp_frame-passes :
      (net : NetLib)
      → half frame 12 ≢ ethertype_vlan
      → (half frame 12 ≡ ethertype_ipv4 → bit_and (half frame 20) 0x1FFF ≡ 0)
      → Allows (λ p. passes frame ≡ true) (parse_ntp_frame net frame)
  unfolding parse_ntp_frame
  parse_ntp_frame-passes net untagged whole =
      Allows-bind _ _ (ethernet frame) _ (ethernet-untagged untagged) λ (et, off) (long, e, o).
        rw (o, e)
          (Allows-bind _ _ (network frame (half frame 12) 14) _ (network-IsUdp (half frame 12))
            λ h udp.
              Allows-imp (λ p. passes_ports frame h.off ≡ true) _ _
                (λ p ports. network-passes h whole long ports udp) (transport-ports net h))

-- A frame without a VLAN tag that the parser accepts, and that is no IPv4 fragment but the first, passes
-- the filter program, on every machine that does what its documentation says.
pub build_ntp_bpf-parse_ntp_frame :
    (exec : Machine)
    → IsMachine exec
    → (net : NetLib) (frame : List ℕ) (p : Parsed) → parse_ntp_frame net frame ≡ accept p
    → half frame 12 ≢ ethertype_vlan
    → (half frame 12 ≡ ethertype_ipv4 → bit_and (half frame 20) 0x1FFF ≡ 0)
    → exec build_ntp_bpf 0 0 0 frame ≡ 0xFFFF
build_ntp_bpf-parse_ntp_frame exec laws net frame p e untagged whole =
    build_ntp_bpf-passes exec laws frame 0 0
    ∙ ap verdict (
        Allows-accept (λ p. passes frame ≡ true) _ p
          (parse_ntp_frame-passes frame net untagged whole) e)
