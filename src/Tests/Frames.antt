-- ===== src/Tests/Frames.antt =====
-- Frames of exporter/internal/ntpframe/frame_test.go's kinds, parsed.
use ntp_server.Base.{◌≡◌, refl, some, [], ◌∷◌, ◌++◌, replicate, true, arith}
use ntp_server.Frame.{NetLib, Parsed, parse_ntp_frame, request, ipv4}
use ntp_server.Frame.Access.{accept, reject, Ensures}
use ntp_server.Frame.Safety.{IsWellFormed, parse_ntp_frame-Ensures}
use ntp_server.Frame.Wire.{Packet, v4, IsPacket, encode, describe}
use ntp_server.Frame.Encode.{parse_ntp_frame-encode}

-- addresses that print as they are
abbrev pub plain : NetLib
plain = record { to_string = λ ip. ip; parse_ip = λ s. s }

-- a tagged request of 192.0.2.7 with one word of options
abbrev pub tagged_request : Packet
tagged_request = record {
  macs = 1 ∷ 2 ∷ 3 ∷ 4 ∷ 5 ∷ 6 ∷ 7 ∷ 8 ∷ 9 ∷ 10 ∷ 11 ∷ 12 ∷ [];
  tag = some (0, 5);
  header = v4 4 1 (0 ∷ 0 ∷ 80 ∷ 1 ∷ 2 ∷ 0 ∷ 0 ∷ 64 ∷ []) (3 ∷ 4 ∷ []) (1 ∷ 1 ∷ 1 ∷ 0 ∷ []);
  src = 192 ∷ 0 ∷ 2 ∷ 7 ∷ [];
  dst = 198 ∷ 51 ∷ 100 ∷ 1 ∷ [];
  sport = 40123;
  dport = 123;
  length_and_checksum = 0 ∷ 56 ∷ 0 ∷ 0 ∷ [];
  payload = 0x23 ∷ replicate 39 0 ++ (1 ∷ 2 ∷ 3 ∷ 4 ∷ 5 ∷ 6 ∷ 7 ∷ 8 ∷ []);
}

pub tagged_request_lem : IsPacket tagged_request
tagged_request_lem = record {
  macs = refl;
  header = (omega arith, refl, refl, refl, refl, refl);
  length_and_checksum = refl;
}

parse_ntp_frame-Ensures_example :
    Ensures IsWellFormed (parse_ntp_frame plain (encode tagged_request))
parse_ntp_frame-Ensures_example = parse_ntp_frame-Ensures plain (encode tagged_request)

parse_ntp_frame-encode_example :
    parse_ntp_frame plain (encode tagged_request) ≡ describe plain tagged_request
parse_ntp_frame-encode_example = parse_ntp_frame-encode plain tagged_request tagged_request_lem

abbrev pub tagged_parsed : Parsed
tagged_parsed = record {
  direction = request;
  ip = 192 ∷ 0 ∷ 2 ∷ 7 ∷ [];
  src_ip = 192 ∷ 0 ∷ 2 ∷ 7 ∷ [];
  dst_ip = 198 ∷ 51 ∷ 100 ∷ 1 ∷ [];
  family = ipv4;
  version = b'4' ∷ [];
  has_version = true;
  xid = some (1 ∷ 2 ∷ 3 ∷ 4 ∷ 5 ∷ 6 ∷ 7 ∷ 8 ∷ []);
}

-- a run: the version, the XID and the client of the request
pub tagged_request_run : parse_ntp_frame plain (encode tagged_request) ≡ accept tagged_parsed
unfolding describe ntp_server.Frame.ntp_version replicate
tagged_request_run = parse_ntp_frame-encode plain tagged_request tagged_request_lem

-- a frame of 13 bytes is no NTP frame
short_run : parse_ntp_frame plain (replicate 13 0) ≡ reject
unfolding parse_ntp_frame ntp_server.Frame.ethernet replicate
short_run = refl
