-- ===== src/Bpf/Meaning.antt =====
-- What the filter program of exporter/internal/ntpframe/frame.go computes.
use ntp_server.Base.{
  ℕ, ◌+◌, ◌*◌, ◌%◌, ◌≤◌, ◌≡◌, refl, ap, ◌∙◌, Bool, true, false, ◌&&◌, ◌||◌, List, length, leb,
  le→leb, leb→le, nat_eqb, if◌then◌else◌, arith,
}
use ntp_server.Frame.{ethertype_ipv4, ethertype_ipv6, ip_proto_udp, ntp_port}
use ntp_server.Frame.Access.{byte}
use ntp_server.Bpf.{build_ntp_bpf}
use ntp_server.Bpf.Machine.{half, Machine, IsMachine}
use Prim.Native.Nat.{bit_and}

-- the two bytes at `i` are port 123
abbrev pub has_port : List ℕ → ℕ → Bool
has_port frame i = leb (i + 2) (length frame) && nat_eqb (half frame i) ntp_port

-- a UDP header at byte `i` has port 123
unfoldable pub passes_ports : List ℕ → ℕ → Bool
passes_ports frame i =
    leb (i + 2) (length frame) && (nat_eqb (half frame i) ntp_port || has_port frame (i + 2))

-- an IPv4 header at byte 14, with any options, of an unfragmented UDP packet
unfoldable pub passes_ipv4 : List ℕ → Bool
passes_ipv4 frame =
    leb 24 (length frame)
    && (nat_eqb (byte frame 23) ip_proto_udp
        && (nat_eqb (bit_and (half frame 20) 0x1FFF) 0
            && passes_ports frame (byte frame 14 % 16 * 4 + 14)))

-- an IPv6 header at byte 14, of a UDP packet
unfoldable pub passes_ipv6 : List ℕ → Bool
passes_ipv6 frame =
    leb 21 (length frame) && (nat_eqb (byte frame 20) ip_proto_udp && passes_ports frame 54)

unfoldable pub passes : List ℕ → Bool
passes frame =
    leb 14 (length frame)
    && (if nat_eqb (half frame 12) ethertype_ipv4
        then passes_ipv4 frame
        else (nat_eqb (half frame 12) ethertype_ipv6 && passes_ipv6 frame))

abbrev pub verdict : Bool → ℕ
verdict b = if b then 0xFFFF else 0

guarded : (c b : Bool) {n : ℕ} → n ≡ verdict b → (if c then n else 0) ≡ verdict (c && b)
guarded true b e = e
guarded false b e = refl

guarded_by :
    (c b : Bool) {n : ℕ} → (c ≡ true → n ≡ verdict b) → (if c then n else 0) ≡ verdict (c && b)
guarded_by true b e = e refl
guarded_by false b e = refl

either : (c b : Bool) {n : ℕ} → n ≡ verdict b → (if c then 0xFFFF else n) ≡ verdict (c || b)
either true b e = refl
either false b e = e

verdict-if : (c a b : Bool) → (if c then verdict a else verdict b) ≡ verdict (if c then a else b)
verdict-if true a b = refl
verdict-if false a b = refl

module _ (exec : Machine) (laws : IsMachine exec) (frame : List ℕ) where
  -- a jump, where the run goes on in two known ways
  jump :
      (c : Bool) (pc jt jf a x : ℕ) {m n : ℕ}
      → exec build_ntp_bpf (pc + 1 + jt) a x frame ≡ m
      → exec build_ntp_bpf (pc + 1 + jf) a x frame ≡ n
      → exec build_ntp_bpf (pc + 1 + (if c then jt else jf)) a x frame ≡ (if c then m else n)
  jump true pc jt jf a x taken other = taken
  jump false pc jt jf a x taken other = other

  at_18 : (a x : ℕ) → exec build_ntp_bpf 18 a x frame ≡ 0xFFFF
  at_18 a x = laws.return build_ntp_bpf 18 a x frame refl

  at_19 : (a x : ℕ) → exec build_ntp_bpf 19 a x frame ≡ 0
  at_19 a x = laws.return build_ntp_bpf 19 a x frame refl

  at_11 : (a x : ℕ) → exec build_ntp_bpf 11 a x frame ≡ verdict (nat_eqb a ntp_port)
  at_11 a x =
      laws.jump_equal build_ntp_bpf 11 a x frame refl
      ∙ jump (nat_eqb a ntp_port) 11 6 7 a x (at_18 a x) (at_19 a x)

  at_10 : (a x : ℕ) → exec build_ntp_bpf 10 a x frame ≡ verdict (has_port frame (x + 16))
  at_10 a x =
      laws.load_half_at_index build_ntp_bpf 10 a x frame refl
      ∙ guarded (leb (x + 16 + 2) (length frame)) _ (at_11 (half frame (x + 16)) x)

  at_9 :
      (a x : ℕ)
      → exec build_ntp_bpf 9 a x frame ≡ verdict (nat_eqb a ntp_port || has_port frame (x + 16))
  at_9 a x =
      laws.jump_equal build_ntp_bpf 9 a x frame refl
      ∙ jump (nat_eqb a ntp_port) 9 8 0 a x (at_18 a x) (at_10 a x)
      ∙ either (nat_eqb a ntp_port) _ refl

  at_8 : (a x : ℕ) → exec build_ntp_bpf 8 a x frame ≡ verdict (passes_ports frame (x + 14))
  unfolding passes_ports
  at_8 a x =
      let next : x + 16 ≡ x + 14 + 2 = omega arith in
      laws.load_half_at_index build_ntp_bpf 8 a x frame refl
      ∙ guarded (leb (x + 14 + 2) (length frame)) _ (at_9 (half frame (x + 14)) x)
      ∙ ap
          (λ j. verdict (
            leb (x + 14 + 2) (length frame)
            && (nat_eqb (half frame (x + 14)) ntp_port || has_port frame j)))
          next

  module _ (long : 24 ≤ length frame) where
    at_7 :
        (a x : ℕ)
        → exec build_ntp_bpf 7 a x frame
          ≡ verdict (passes_ports frame (byte frame 14 % 16 * 4 + 14))
    at_7 a x =
        laws.load_index build_ntp_bpf 7 a x frame refl
        ∙ rw (le→leb 15 (length frame) (omega arith)) (at_8 a (byte frame 14 % 16 * 4))

    at_6 :
        (a x : ℕ)
        → exec build_ntp_bpf 6 a x frame
          ≡ verdict
              (nat_eqb (bit_and a 0x1FFF) 0 && passes_ports frame (byte frame 14 % 16 * 4 + 14))
    at_6 a x =
        laws.jump_set build_ntp_bpf 6 a x frame refl
        ∙ jump (nat_eqb (bit_and a 0x1FFF) 0) 6 0 12 a x (at_7 a x) (at_19 a x)
        ∙ guarded (nat_eqb (bit_and a 0x1FFF) 0) _ refl

    at_4 :
        (a x : ℕ)
        → exec build_ntp_bpf 4 a x frame
          ≡ verdict (
              nat_eqb a ip_proto_udp
              && (nat_eqb (bit_and (half frame 20) 0x1FFF) 0
                  && passes_ports frame (byte frame 14 % 16 * 4 + 14)))
    at_4 a x =
        laws.jump_equal build_ntp_bpf 4 a x frame refl
        ∙ jump (nat_eqb a ip_proto_udp) 4 0 14 a x
            (laws.load_half build_ntp_bpf 5 a x frame refl
              ∙ rw (le→leb 22 (length frame) (omega arith)) (at_6 (half frame 20) x))
            (at_19 a x)
        ∙ guarded (nat_eqb a ip_proto_udp) _ refl

  at_3 : (a x : ℕ) → exec build_ntp_bpf 3 a x frame ≡ verdict (passes_ipv4 frame)
  unfolding passes_ipv4
  at_3 a x =
      laws.load_byte build_ntp_bpf 3 a x frame refl
      ∙ guarded_by (leb 24 (length frame)) _
          (λ h. at_4 (leb→le 24 (length frame) h) (byte frame 23) x)

  at_15 :
      (a x : ℕ)
      → exec build_ntp_bpf 15 a x frame ≡ verdict (nat_eqb a ntp_port || has_port frame 56)
  at_15 a x =
      laws.jump_equal build_ntp_bpf 15 a x frame refl
      ∙ jump (nat_eqb a ntp_port) 15 2 0 a x (at_18 a x) (
          laws.load_half build_ntp_bpf 16 a x frame refl
          ∙ guarded (leb 58 (length frame)) _ (
              laws.jump_equal build_ntp_bpf 17 (half frame 56) x frame refl
              ∙ jump (nat_eqb (half frame 56) ntp_port) 17 0 1 (half frame 56) x
                  (at_18 (half frame 56) x) (at_19 (half frame 56) x)))
      ∙ either (nat_eqb a ntp_port) _ refl

  at_12 : (a x : ℕ) → exec build_ntp_bpf 12 a x frame ≡ verdict (passes_ipv6 frame)
  unfolding passes_ipv6 passes_ports
  at_12 a x =
      laws.load_byte build_ntp_bpf 12 a x frame refl
      ∙ guarded (leb 21 (length frame)) _ (
          laws.jump_equal build_ntp_bpf 13 (byte frame 20) x frame refl
          ∙ jump (nat_eqb (byte frame 20) ip_proto_udp) 13 0 5 (byte frame 20) x
              (laws.load_half build_ntp_bpf 14 (byte frame 20) x frame refl
                ∙ guarded (leb 56 (length frame)) _ (at_15 (half frame 54) x))
              (at_19 (byte frame 20) x)
          ∙ guarded (nat_eqb (byte frame 20) ip_proto_udp) _ refl)

  at_1 :
      (a x : ℕ)
      → exec build_ntp_bpf 1 a x frame
        ≡ verdict (
            if nat_eqb a ethertype_ipv4
            then passes_ipv4 frame
            else (nat_eqb a ethertype_ipv6 && passes_ipv6 frame))
  at_1 a x =
      laws.jump_equal build_ntp_bpf 1 a x frame refl
      ∙ jump (nat_eqb a ethertype_ipv4) 1 1 0 a x (at_3 a x) (
          laws.jump_equal build_ntp_bpf 2 a x frame refl
          ∙ jump (nat_eqb a ethertype_ipv6) 2 9 16 a x (at_12 a x) (at_19 a x)
          ∙ guarded (nat_eqb a ethertype_ipv6) _ refl)
      ∙ verdict-if (nat_eqb a ethertype_ipv4) (passes_ipv4 frame) _

  -- On every machine that does what its documentation says, from any registers, the filter program
  -- keeps a frame (65535 bytes of it) or drops it as `passes` says: untagged UDP over IPv6, or
  -- over IPv4 with any options and without a fragment offset, from or to port 123.
  pub build_ntp_bpf-passes : (a x : ℕ) → exec build_ntp_bpf 0 a x frame ≡ verdict (passes frame)
  unfolding passes
  build_ntp_bpf-passes a x =
      laws.load_half build_ntp_bpf 0 a x frame refl
      ∙ guarded (leb 14 (length frame)) _ (at_1 (half frame 12) x)
