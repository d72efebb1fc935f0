-- ===== src/Load/Cookies.antt =====
-- The cookies of scripts/ntp-load/main.go: which are sent, what comes back in a reply, and what the
-- exporter's parser reads of a request.
use ntp_server.Base.{
  ℕ, zero, suc, ◌+◌, ◌*◌, ◌/◌, ◌%◌, ◌^◌, ◌≤◌, ◌<◌, ◌≡◌, refl, ap, sym, ◌∙◌, List, [], ◌∷◌, ◌++◌,
  arith, length, set, take, replicate, some, true, bytes, nat_eq, string_eq, drop-append,
  take-length, length-append,
}
use ntp_server.Base.Bits.{bit_or_sum}
use native.Mathlib.Nat.{pow-suc}
use Prim.Native.Nat.{bit_or}
use ntp_server.Frame.{NetLib, parse_ntp_frame, ntp_version, request}
use ntp_server.Frame.Access.{accept, sub}
use ntp_server.Frame.Wire.{Packet, IsPacket, encode, describe, family_of}
use ntp_server.Frame.Encode.{parse_ntp_frame-encode}
use ntp_server.Load.Packet.{put_bytes, get_bytes_from, ntp_packet, cookie_base, cookie_of_reply}

length-put_bytes : (n v : ℕ) → length (put_bytes n v) ≡ n
unfolding put_bytes
length-put_bytes zero v = refl
length-put_bytes (suc n) v =
    omega
      (arith, length-append (put_bytes n (v / 256)) ((v % 256) ∷ []), length-put_bytes n (v / 256))

get_bytes_from-append :
    (v : ℕ) (xs ys : List ℕ) → get_bytes_from v (xs ++ ys) ≡ get_bytes_from (get_bytes_from v xs) ys
unfolding get_bytes_from
get_bytes_from-append v [] ys = refl
get_bytes_from-append v (x ∷ xs) ys = get_bytes_from-append (v * 256 + x) xs ys

pub get-put_bytes : (n v : ℕ) → v < 256 ^ n → get_bytes_from 0 (put_bytes n v) ≡ v
unfolding put_bytes get_bytes_from
get-put_bytes zero v h = omega arith
get-put_bytes (suc n) v h =
    get_bytes_from-append 0 (put_bytes n (v / 256)) ((v % 256) ∷ [])
    ∙ omega (arith, get-put_bytes n (v / 256) (omega (arith, pow-suc 256 n)))

transmit-ntp_packet : (cookie : ℕ) → sub (ntp_packet cookie) 40 48 ≡ put_bytes 8 cookie
unfolding ntp_packet replicate
transmit-ntp_packet cookie =
    ap (take 8) (drop-append (take 40 (set (replicate 48 0) 0 0x23)) (put_bytes 8 cookie) 40 0 refl)
    ∙ ap (λ n. take n (put_bytes 8 cookie)) (sym (length-put_bytes 8 cookie))
    ∙ take-length (put_bytes 8 cookie)

length-ntp_packet : (cookie : ℕ) → length (ntp_packet cookie) ≡ 48
unfolding ntp_packet replicate
length-ntp_packet cookie =
    length-append (take 40 (set (replicate 48 0) 0 0x23)) (put_bytes 8 cookie)
    ∙ omega (arith, length-put_bytes 8 cookie)

-- A reply that echoes the transmit timestamp of a request (bytes 40 to 47) as its origin timestamp
-- (bytes 24 to 31).
abbrev pub Echoes : ℕ → List ℕ → Type 0
Echoes cookie reply = (48 ≤ length reply) × (sub reply 24 32 ≡ sub (ntp_packet cookie) 40 48)

-- From a reply that echoes a request with a 64-bit cookie, `recvLoop` takes the cookie.
pub cookie_of_reply-Echoes :
    (cookie : ℕ) (reply : List ℕ)
    → cookie < 2 ^ 64
    → Echoes cookie reply
    → cookie_of_reply reply ≡ some cookie
unfolding cookie_of_reply
cookie_of_reply-Echoes cookie reply fits (whole, echo) =
    rw echo (rw transmit-ntp_packet (ground (arith, ap some (get-put_bytes 8 cookie fits))))

cookie_sum : (i n : ℕ) → i < 2 ^ 16 → n < 2 ^ 48 → bit_or (cookie_base i) n ≡ i * 2 ^ 48 + n
unfolding cookie_base
cookie_sum i n h k =
    let base : cookie_base i ≡ i * 2 ^ 48 = omega arith in
    ap (λ b. bit_or b n) base ∙ bit_or_sum 48 i n k

-- Two workers, or two numbers of one worker, have different cookies.
pub cookie-injective :
    (i j n m : ℕ)
    → i < 2 ^ 16
    → j < 2 ^ 16
    → n < 2 ^ 48
    → m < 2 ^ 48
    → bit_or (cookie_base i) n ≡ bit_or (cookie_base j) m
    → (i ≡ j) × (n ≡ m)
cookie-injective i j n m hi hj hn hm e =
    let sum : i * 2 ^ 48 + n ≡ j * 2 ^ 48 + m =
      sym (cookie_sum i n hi hn) ∙ e ∙ cookie_sum j m hj hm in
    (omega arith, omega arith)

-- The exporter's parser reads a request of the generator, in any UDP packet to port 123, as a
-- request of the source, with version 4 and the cookie's 8 bytes as its XID.
pub parse_ntp_frame-ntp_packet :
    (net : NetLib) (p : Packet) (cookie : ℕ)
    → IsPacket p
    → p.dport ≡ 123
    → p.payload ≡ ntp_packet cookie
    → parse_ntp_frame net (encode p)
      ≡ accept (record {
        direction = request;
        ip = net.parse_ip (net.to_string p.src);
        src_ip = p.src;
        dst_ip = p.dst;
        family = family_of p.header;
        version = bytes "4";
        has_version = true;
        xid = some (put_bytes 8 cookie);
      })
unfolding describe ntp_version ntp_packet replicate
parse_ntp_frame-ntp_packet net p cookie w port load =
    parse_ntp_frame-encode net p w
    ∙ rw (describe, port, load, transmit-ntp_packet, length-ntp_packet) refl
