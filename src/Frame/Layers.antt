-- ===== src/Frame/Layers.antt =====
-- What the parser reads from the layers of a well-formed frame: Ethernet, IPv4, IPv6.
use ntp_server.Base.{
  ℕ, ◌+◌, ◌*◌, ◌%◌, ◌<◌, ◌≡◌, ◌⊎◌, List, [], ◌∷◌, ◌++◌, arith, length, length-append, nat_eq,
  string_eq,
}
use ntp_server.Frame.{ipv4, ipv6, word_at, ethernet, network_ipv4, network_ipv6, ip_proto_udp}
use ntp_server.Frame.Access.{accept, at}
use ntp_server.Frame.Prefix.{
  at-append, at_first, at-append_here, word_at-append, word_at-append_here, ltb-append,
  slice-append, at-append_left, slice-src, slice-dst,
}

module _ (macs : List ℕ) (m : length macs ≡ 12) (hi lo : ℕ) (rest : List ℕ) where
  pub ethernet_untagged :
      lo < 256
      → hi < 0x81 ⊎ 0x81 < hi
      → ethernet (macs ++ (hi ∷ lo ∷ rest)) ≡ accept (hi * 256 + lo, 14)
  unfolding ethernet word_at at
  ethernet_untagged b h =
      rw (ltb-append macs _ 12 m 2, word_at-append_here macs (hi ∷ lo ∷ rest) 12 m) (ground arith)

  pub ethernet_tagged :
      (t u : ℕ)
      → ethernet (macs ++ (0x81 ∷ 0x00 ∷ t ∷ u ∷ hi ∷ lo ∷ rest)) ≡ accept (hi * 256 + lo, 18)
  unfolding ethernet word_at at
  ethernet_tagged t u =
      rw
        (
          ltb-append macs _ 12 m 2,
          ltb-append macs _ 12 m 6,
          word_at-append_here macs _ 12 m,
          word_at-append macs (0x81 ∷ 0x00 ∷ t ∷ u ∷ hi ∷ lo ∷ rest) 12 m 4,
        )
        (ground arith)

-- an IPv4 header without its addresses and options: `mid` is bytes 1 to 8, `check` the checksum
abbrev pub ipv4_head : ℕ → List ℕ → List ℕ → List ℕ
ipv4_head first mid check = first ∷ (mid ++ (ip_proto_udp ∷ check))

module _ (first : ℕ) (mid check : List ℕ) (m : length mid ≡ 8) (c : length check ≡ 2) where
  pub length-ipv4_head : length (ipv4_head first mid check) ≡ 12
  length-ipv4_head = omega (arith, length-append {0} mid (ip_proto_udp ∷ check))

  pub at-ipv4_head : (r : List ℕ) → at (ipv4_head first mid check ++ r) 9 ≡ accept ip_proto_udp
  unfolding at
  at-ipv4_head r =
      rw (at-append_left (ipv4_head first mid check) r 9 (omega (arith, length-ipv4_head)))
        (at-append_here mid (ip_proto_udp ∷ check) 8 m)

module _ (pre : List ℕ) (off : ℕ) (p : length pre ≡ off) (src dst : List ℕ) where
  pub network_ipv4-append :
      (first n : ℕ) (mid check options rest : List ℕ)
      → first % 16 ≡ 5 + n
      → length mid ≡ 8
      → length check ≡ 2
      → length src ≡ 4
      → length dst ≡ 4
      → length options ≡ n * 4
      → network_ipv4 (pre ++ (ipv4_head first mid check ++ (src ++ (dst ++ (options ++ rest))))) off
        ≡ accept (record { src = src; dst = dst; family = ipv4; off = off + (20 + n * 4) })
  unfolding network_ipv4
  network_ipv4-append first n mid check options rest f m c s d o =
      let head = ipv4_head first mid check in
      let body = src ++ (dst ++ (options ++ rest)) in
      let size : length (head ++ body) ≡ 20 + n * 4 + length rest = omega (
        arith,
        length-append {0} head body,
        length-ipv4_head first mid check m c,
        length-append {0} src (dst ++ (options ++ rest)),
        length-append {0} dst (options ++ rest),
        length-append {0} options rest,
      ) in
      let ihl : first % 16 * 4 ≡ 20 + n * 4 = omega arith in
      rw
        (
          ltb-append pre (head ++ body) off p 20,
          at_first pre first _ off p,
          ihl,
          ltb-append pre (head ++ body) off p (20 + n * 4),
          at-append pre (head ++ body) off 9 p,
          at-ipv4_head first mid check m c body,
          slice-append pre (head ++ body) off p 12 16,
          slice-append pre (head ++ body) off p 16 20,
          slice-src head src dst (options ++ rest) 12 4 (length-ipv4_head first mid check m c) s d,
          slice-dst head src dst (options ++ rest) 12 4 (length-ipv4_head first mid check m c) s d,
        )
        (ground arith)

-- an IPv6 header without its addresses: `mid` is bytes 0 to 5, `hop` the hop limit
abbrev pub ipv6_head : List ℕ → ℕ → List ℕ
ipv6_head mid hop = mid ++ (ip_proto_udp ∷ hop ∷ [])

module _ (pre : List ℕ) (off : ℕ) (p : length pre ≡ off) (src dst : List ℕ) where
  pub network_ipv6-append :
      (mid : List ℕ) (hop : ℕ) (rest : List ℕ)
      → length mid ≡ 6
      → length src ≡ 16
      → length dst ≡ 16
      → network_ipv6 (pre ++ (ipv6_head mid hop ++ (src ++ (dst ++ rest)))) off
        ≡ accept (record { src = src; dst = dst; family = ipv6; off = off + 40 })
  unfolding network_ipv6
  network_ipv6-append mid hop rest m s d =
      let head = ipv6_head mid hop in
      let body = src ++ (dst ++ rest) in
      let width : length head ≡ 8 =
        omega (arith, length-append {0} mid (ip_proto_udp ∷ hop ∷ [])) in
      let size : length (head ++ body) ≡ 40 + length rest = omega (
        arith,
        length-append {0} head body,
        length-append {0} src (dst ++ rest),
        length-append {0} dst rest,
      ) in
      rw
        (
          ltb-append pre (head ++ body) off p 40,
          at-append pre (head ++ body) off 6 p,
          at-append_left head body 6 (omega arith),
          at_first mid ip_proto_udp (hop ∷ []) 6 m,
          slice-append pre (head ++ body) off p 8 24,
          slice-append pre (head ++ body) off p 24 40,
          slice-src head src dst rest 8 16 width s d,
          slice-dst head src dst rest 8 16 width s d,
        )
        (ground arith)
