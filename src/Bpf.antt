-- ===== src/Bpf.antt =====
-- exporter/internal/ntpframe/frame.go: `BuildNTPBPF`, the filter program that the kernel runs on every
-- frame before the parser gets it. The kernel's machine is a parameter.
pub mod Machine
pub mod Meaning
pub mod Passes
use ntp_server.Base.{ℕ, List, [], ◌∷◌}
use ntp_server.Frame.{eth_hdr_len, ethertype_ipv4, ethertype_ipv6, ip_proto_udp, ntp_port}
use Machine.{RawInstruction}

-- an instruction, with its jumps and its operand
abbrev ins : (op jt jf k : ℕ) → RawInstruction
ins op jt jf k = record { op = op; jt = jt; jf = jf; k = k }

-- `BuildNTPBPF`
abbrev pub build_ntp_bpf : List RawInstruction
build_ntp_bpf =
    ins 0x28 0 0 12
    ∷ ins 0x15 1 0 ethertype_ipv4
    ∷ ins 0x15 9 16 ethertype_ipv6
    ∷ ins 0x30 0 0 23
    ∷ ins 0x15 0 14 ip_proto_udp
    ∷ ins 0x28 0 0 20
    ∷ ins 0x45 12 0 0x1FFF
    ∷ ins 0xB1 0 0 eth_hdr_len
    ∷ ins 0x48 0 0 14
    ∷ ins 0x15 8 0 ntp_port
    ∷ ins 0x48 0 0 16
    ∷ ins 0x15 6 7 ntp_port
    ∷ ins 0x30 0 0 20
    ∷ ins 0x15 0 5 ip_proto_udp
    ∷ ins 0x28 0 0 54
    ∷ ins 0x15 2 0 ntp_port
    ∷ ins 0x28 0 0 56
    ∷ ins 0x15 0 1 ntp_port
    ∷ ins 0x06 0 0 0xFFFF
    ∷ ins 0x06 0 0 0
    ∷ []
