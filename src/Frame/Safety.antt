-- ===== src/Frame/Safety.antt =====
-- `ParseNTPFrame` never indexes out of range, and the shape of what it accepts.
use ntp_server.Base.{
  ℕ, ◌+◌, ◌*◌, ◌≤◌, ◌≡◌, refl, ◌⊎◌, inl, inr, Bool, true, false, Option, none, some, List, [],
  arith, length, leb→le, Bool-cases, GoString, bytes, ◌==◌, nat_eq, string_eq, ltb, leb,
}
use ntp_server.Frame.{
  NetLib, Parsed, Network, request, response, ipv4, ipv6, word_at, ntp_version, ethernet, network,
  network_ipv4, network_ipv6, direction_of, xid_of, application, transport, parse_ntp_frame,
}
use ntp_server.Frame.Access.{
  accept, Ensures, Ensures-bind, byte, sub, at-byte, slice-sub, length-sub, slice_from-drop,
}

ethernet-Ensures : (frame : List ℕ) → Ensures (λ _. Unit) (ethernet frame)
unfolding ethernet word_at
ethernet-Ensures frame =
    ground (arith, at-byte frame 12, at-byte frame 13, at-byte frame 16, at-byte frame 17)

pub word_at-accepts :
    (frame : List ℕ) (i : ℕ)
    → i + 2 ≤ length frame
    → word_at frame i ≡ accept (byte frame i * 256 + byte frame (i + 1))
unfolding word_at
word_at-accepts frame i h = rw (at-byte frame i (omega arith), at-byte frame (i + 1) (omega arith))

abbrev pub HasAddresses : GoString → List ℕ → List ℕ → Type 0
HasAddresses family src dst =
    ((family ≡ ipv4) × (length src ≡ 4) × (length dst ≡ 4))
    ⊎ ((family ≡ ipv6) × (length src ≡ 16) × (length dst ≡ 16))

network_ipv4-Ensures :
    (frame : List ℕ) (off : ℕ)
    → Ensures (λ h. HasAddresses h.family h.src h.dst) (network_ipv4 frame off)
unfolding network_ipv4
network_ipv4-Ensures frame off = ground (
  arith,
  at-byte frame off,
  at-byte frame (off + 9),
  slice-sub frame (off + 12) (off + 16),
  slice-sub frame (off + 16) (off + 20),
  length-sub frame (off + 12) (off + 16),
  length-sub frame (off + 16) (off + 20),
)

network_ipv6-Ensures :
    (frame : List ℕ) (off : ℕ)
    → Ensures (λ h. HasAddresses h.family h.src h.dst) (network_ipv6 frame off)
unfolding network_ipv6
network_ipv6-Ensures frame off = ground (
  arith,
  at-byte frame (off + 6),
  slice-sub frame (off + 8) (off + 24),
  slice-sub frame (off + 24) (off + 40),
  length-sub frame (off + 8) (off + 24),
  length-sub frame (off + 24) (off + 40),
)

network-Ensures :
    (frame : List ℕ) (ethertype off : ℕ)
    → Ensures (λ h. HasAddresses h.family h.src h.dst) (network frame ethertype off)
unfolding network
network-Ensures frame ethertype off =
    ground (arith, network_ipv4-Ensures frame off, network_ipv6-Ensures frame off)

abbrev pub IsVersion : GoString → Type 0
IsVersion v =
    (v ≡ bytes "1") ⊎ (v ≡ bytes "2") ⊎ (v ≡ bytes "3") ⊎ (v ≡ bytes "4") ⊎ (v ≡ bytes "other")

ntp_version-IsVersion : (b : ℕ) → IsVersion (ntp_version b)
unfolding ntp_version
ntp_version-IsVersion b = ground arith

-- the fields that are set only for a whole NTP payload: all of them, or none
abbrev pub HasPayload : Bool → GoString → Option (List ℕ) → Type 0
HasPayload false v x = (v ≡ []) × (x ≡ none)
HasPayload true v none = ⊥
HasPayload true v (some x) = IsVersion v × (length x ≡ 8)

-- A parsed frame: a direction, addresses of the length of the family, and version and XID (8 bytes)
-- both there or both absent.
pub record IsWellFormed (p : Parsed) : Type 0 where
  pub direction : (p.direction ≡ request) ⊎ (p.direction ≡ response)
  pub addresses : HasAddresses p.family p.src_ip p.dst_ip
  pub payload : HasPayload p.has_version p.version p.xid

direction_of-Ensures :
    (h : Network) (sport dport : ℕ)
    → Ensures (λ d. (d.0 ≡ request) ⊎ (d.0 ≡ response)) (direction_of h sport dport)
unfolding direction_of
direction_of-Ensures h sport dport = ground arith

-- the XID of a whole payload is eight bytes of it
pub xid_of-accepts :
    (direction : GoString) (payload : List ℕ)
    → 48 ≤ length payload
    → (x : List ℕ) × (xid_of direction payload ≡ accept x) × (length x ≡ 8)
unfolding xid_of
xid_of-accepts direction payload long = elim (Bool-cases (direction == request)) [
  | inl q ↦ (
    sub payload 40 48,
    rw q (slice-sub payload 40 48 (omega arith) long),
    length-sub payload 40 48 long,
  )
  | inr r ↦ (
    sub payload 24 32,
    rw r (slice-sub payload 24 32 (omega arith) (omega arith)),
    length-sub payload 24 32 (omega arith),
  )
]

module _ (net : NetLib) where
  application-Ensures :
      (h : Network) (d : GoString × List ℕ) (payload : List ℕ)
      → HasAddresses h.family h.src h.dst
      → (d.0 ≡ request) ⊎ (d.0 ≡ response)
      → Ensures IsWellFormed (application net h d payload)
  unfolding application
  application-Ensures h (direction, client) payload a e =
      elim (Bool-cases (leb 48 (length payload))) [
        | inl long ↦
            let (x, xe, len) = xid_of-accepts direction payload (leb→le 48 _ long) in
            rw (long, at-byte payload 0 (omega (arith, leb→le 48 _ long)), xe)
              (record {
                direction = e;
                addresses = a;
                payload = (ntp_version-IsVersion (byte payload 0), len);
              })
        | inr short ↦ rw short (record { direction = e; addresses = a; payload = (refl, refl) })
      ]

  transport-Ensures :
      (frame : List ℕ) (h : Network)
      → HasAddresses h.family h.src h.dst
      → Ensures IsWellFormed (transport net frame h)
  unfolding transport
  transport-Ensures frame h a = elim (Bool-cases (ltb (length frame) (h.off + 8))) [
    | inl short ↦ rw short tt
    | inr long ↦
        rw
          (
            long,
            word_at-accepts frame h.off (ground arith),
            word_at-accepts frame (h.off + 2) (ground arith),
            slice_from-drop frame (h.off + 8) (ground arith),
          )
          (Ensures-bind _ IsWellFormed (direction_of h _ _) _ (direction_of-Ensures h _ _)
            λ d e. application-Ensures h d _ a e)
  ]

  -- On every frame, of whatever length and bytes, `ParseNTPFrame` does not index out of range, and
  -- what it accepts is well formed: the direction is one of the two, both addresses have the length
  -- of the family, and version and XID are both set, the XID 8 bytes long, or both unset.
  pub parse_ntp_frame-Ensures : (frame : List ℕ) → Ensures IsWellFormed (parse_ntp_frame net frame)
  unfolding parse_ntp_frame
  parse_ntp_frame-Ensures frame =
      Ensures-bind _ IsWellFormed (ethernet frame) _ (ethernet-Ensures frame) λ e _.
        Ensures-bind _ IsWellFormed (network frame e.0 e.1) _ (network-Ensures frame e.0 e.1)
          (λ h a. transport-Ensures frame h a)
