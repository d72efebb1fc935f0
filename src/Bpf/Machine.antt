-- ===== src/Bpf/Machine.antt =====
-- The classic-BPF machine of the kernel, as far as the filter program uses it: what its
-- documentation says of each kind of instruction.
use ntp_server.Base.{
  ℕ, ◌+◌, ◌*◌, ◌%◌, ◌≡◌, some, List, get_elem?, length, leb, nat_eqb, if◌then◌else◌,
}
use ntp_server.Frame.Access.{byte}
use Prim.Native.Nat.{bit_and}

-- `bpf.RawInstruction`
pub record RawInstruction : Type 0 where
  pub op : ℕ
  pub jt : ℕ
  pub jf : ℕ
  pub k : ℕ

-- two bytes of a frame, in network order
abbrev pub half : List ℕ → ℕ → ℕ
half frame i = byte frame i * 256 + byte frame (i + 1)

-- A machine runs a program on a frame, from an instruction, with an accumulator and an index
-- register, and returns how much of the frame to keep.
abbrev pub Machine : Type 0
Machine = List RawInstruction → (pc a x : ℕ) → List ℕ → ℕ

-- A load past the end of the frame ends the run with 0.
pub record IsMachine (exec : Machine) : Type 0 where
  pub load_half :
      (prog : List RawInstruction) (pc a x : ℕ) (frame : List ℕ) {jt jf k : ℕ}
      → get_elem? prog pc ≡ some (record { op = 0x28; jt = jt; jf = jf; k = k })
      → exec prog pc a x frame
        ≡ (if leb (k + 2) (length frame) then exec prog (pc + 1) (half frame k) x frame else 0)
  pub load_byte :
      (prog : List RawInstruction) (pc a x : ℕ) (frame : List ℕ) {jt jf k : ℕ}
      → get_elem? prog pc ≡ some (record { op = 0x30; jt = jt; jf = jf; k = k })
      → exec prog pc a x frame
        ≡ (if leb (k + 1) (length frame) then exec prog (pc + 1) (byte frame k) x frame else 0)
  pub load_half_at_index :
      (prog : List RawInstruction) (pc a x : ℕ) (frame : List ℕ) {jt jf k : ℕ}
      → get_elem? prog pc ≡ some (record { op = 0x48; jt = jt; jf = jf; k = k })
      → exec prog pc a x frame ≡ (
          if leb (x + k + 2) (length frame)
          then exec prog (pc + 1) (half frame (x + k)) x frame
          else 0)
  -- 4 * ([k] & 0xf)
  pub load_index :
      (prog : List RawInstruction) (pc a x : ℕ) (frame : List ℕ) {jt jf k : ℕ}
      → get_elem? prog pc ≡ some (record { op = 0xB1; jt = jt; jf = jf; k = k })
      → exec prog pc a x frame ≡ (
          if leb (k + 1) (length frame)
          then exec prog (pc + 1) a (byte frame k % 16 * 4) frame
          else 0)
  pub jump_equal :
      (prog : List RawInstruction) (pc a x : ℕ) (frame : List ℕ) {jt jf k : ℕ}
      → get_elem? prog pc ≡ some (record { op = 0x15; jt = jt; jf = jf; k = k })
      → exec prog pc a x frame ≡ exec prog (pc + 1 + (if nat_eqb a k then jt else jf)) a x frame
  pub jump_set :
      (prog : List RawInstruction) (pc a x : ℕ) (frame : List ℕ) {jt jf k : ℕ}
      → get_elem? prog pc ≡ some (record { op = 0x45; jt = jt; jf = jf; k = k })
      → exec prog pc a x frame
        ≡ exec prog (pc + 1 + (if nat_eqb (bit_and a k) 0 then jf else jt)) a x frame
  pub return :
      (prog : List RawInstruction) (pc a x : ℕ) (frame : List ℕ) {jt jf k : ℕ}
      → get_elem? prog pc ≡ some (record { op = 0x06; jt = jt; jf = jf; k = k })
      → exec prog pc a x frame ≡ k
