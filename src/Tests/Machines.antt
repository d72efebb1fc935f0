-- ===== src/Tests/Machines.antt =====
-- A classic-BPF machine, and the filter program on concrete frames.
use ntp_server.Base.{
  ℕ, zero, suc, ◌+◌, ◌*◌, ◌%◌, ◌≤◌, ◌≡◌, refl, ap, ◌∙◌, fun_ext, some, List, [], ◌∷◌, drop,
  get_elem?, length, length-drop, replicate, leb, nat_eqb, if◌then◌else◌, arith,
}
use native.Mathlib.Nat.{suc-add, zero-add, add-zero}
use ntp_server.Frame.Access.{byte}
use ntp_server.Frame.Wire.{encode}
use ntp_server.Bpf.{build_ntp_bpf}
use ntp_server.Bpf.Machine.{RawInstruction, half, Machine, IsMachine}
use ntp_server.Bpf.Meaning.{passes, verdict, build_ntp_bpf-passes}
use ntp_server.Bpf.Passes.{build_ntp_bpf-parse_ntp_frame}
use ntp_server.Load.Cookies.{parse_ntp_frame-ntp_packet}
use ntp_server.Tests.Frames.{plain}
use ntp_server.Tests.Loads.{generated, generated_lem}
use Prim.Native.Nat.{bit_and}

-- One instruction; `k n a x` is the run from the instruction `n` further than the next one.
dispatch : RawInstruction → (ℕ → ℕ → ℕ → ℕ) → ℕ → ℕ → List ℕ → ℕ
dispatch i k a x frame =
    if nat_eqb i.op 0x28
    then (if leb (i.k + 2) (length frame) then k 0 (half frame i.k) x else 0)
    else if nat_eqb i.op 0x30
    then (if leb (i.k + 1) (length frame) then k 0 (byte frame i.k) x else 0)
    else if nat_eqb i.op 0x48
    then (if leb (x + i.k + 2) (length frame) then k 0 (half frame (x + i.k)) x else 0)
    else if nat_eqb i.op 0xB1
    then (if leb (i.k + 1) (length frame) then k 0 a (byte frame i.k % 16 * 4) else 0)
    else if nat_eqb i.op 0x15
    then k (if nat_eqb a i.k then i.jt else i.jf) a x
    else if nat_eqb i.op 0x45
    then k (if nat_eqb (bit_and a i.k) 0 then i.jf else i.jt) a x
    else if nat_eqb i.op 0x06
    then i.k
    else 0

-- jumps go forward, so the number of instructions left is enough fuel
go : ℕ → List RawInstruction → List ℕ → ℕ → ℕ → ℕ
go zero prog frame a x = 0
go (suc fuel) [] frame a x = 0
go (suc fuel) (i ∷ rest) frame a x = dispatch i (λ n a x. go fuel (drop n rest) frame a x) a x frame

go-enough :
    (f g : ℕ) (prog : List RawInstruction) (frame : List ℕ) (a x : ℕ)
    → length prog ≤ f
    → length prog ≤ g
    → go f prog frame a x ≡ go g prog frame a x
unfolding go
go-enough zero zero prog frame a x h k = refl
go-enough zero (suc g) [] frame a x h k = refl
go-enough (suc f) zero [] frame a x h k = refl
go-enough zero (suc g) (i ∷ rest) frame a x h k = absurd (omega arith)
go-enough (suc f) zero (i ∷ rest) frame a x h k = absurd (omega arith)
go-enough (suc f) (suc g) [] frame a x h k = refl
go-enough (suc f) (suc g) (i ∷ rest) frame a x h k =
    ap (λ next. dispatch i next a x frame)
      (fun_ext λ n. fun_ext λ b. fun_ext λ y.
        go-enough f g (drop n rest) frame b y (omega (arith, length-drop n rest))
          (omega (arith, length-drop n rest)))

machine : Machine
machine prog pc a x frame = go (length (drop pc prog)) (drop pc prog) frame a x

drop-get :
    (prog : List RawInstruction) (pc : ℕ) {i : RawInstruction}
    → get_elem? prog pc ≡ some i
    → drop pc prog ≡ i ∷ drop (pc + 1) prog
drop-get [] pc e = cc
drop-get (j ∷ prog) zero e = cc
drop-get (j ∷ prog) (suc pc) e = rw suc-add (drop-get prog pc e)

drop-drop : (n m : ℕ) (prog : List RawInstruction) → drop n (drop m prog) ≡ drop (m + n) prog
drop-drop n zero prog = rw zero-add
drop-drop zero (suc m) [] = rw suc-add
drop-drop (suc n) (suc m) [] = rw suc-add
drop-drop n (suc m) (i ∷ prog) = rw suc-add (drop-drop n m prog)

machine-dispatch :
    (prog : List RawInstruction) (pc a x : ℕ) (frame : List ℕ) {i : RawInstruction}
    → get_elem? prog pc ≡ some i
    → machine prog pc a x frame
      ≡ dispatch i (λ n b y. machine prog (pc + 1 + n) b y frame) a x frame
unfolding machine go
machine-dispatch prog pc a x frame {i} e =
    let here = drop-get prog pc e in
    rw here (
      ap (λ next. dispatch i next a x frame)
        (fun_ext λ n. fun_ext λ b. fun_ext λ y.
          let rest = drop-drop n (pc + 1) prog in
          go-enough (length (drop (pc + 1) prog)) (length (drop n (drop (pc + 1) prog)))
            (drop n (drop (pc + 1) prog)) frame b y
            (omega (arith, length-drop n (drop (pc + 1) prog))) (omega arith)
          ∙ ap (λ p. go (length p) p frame b y) rest))

machine-IsMachine : IsMachine machine
unfolding dispatch
machine-IsMachine = record {
  load_half = λ prog pc a x frame e. rw add-zero at (machine-dispatch prog pc a x frame e);
  load_byte = λ prog pc a x frame e. rw add-zero at (machine-dispatch prog pc a x frame e);
  load_half_at_index = λ prog pc a x frame e. rw add-zero at (machine-dispatch prog pc a x frame e);
  load_index = λ prog pc a x frame e. rw add-zero at (machine-dispatch prog pc a x frame e);
  jump_equal = λ prog pc a x frame e. machine-dispatch prog pc a x frame e;
  jump_set = λ prog pc a x frame e. machine-dispatch prog pc a x frame e;
  return = λ prog pc a x frame e. machine-dispatch prog pc a x frame e;
}

build_ntp_bpf-passes_example :
    machine build_ntp_bpf 0 7 9 (encode generated) ≡ verdict (passes (encode generated))
build_ntp_bpf-passes_example = build_ntp_bpf-passes machine machine-IsMachine (encode generated) 7 9

generated_ethertype : half (encode generated) 12 ≡ 0x86DD
unfolding encode replicate
generated_ethertype = refl

build_ntp_bpf-parse_ntp_frame_example : machine build_ntp_bpf 0 0 0 (encode generated) ≡ 0xFFFF
build_ntp_bpf-parse_ntp_frame_example =
    build_ntp_bpf-parse_ntp_frame machine machine-IsMachine plain (encode generated) _
      (parse_ntp_frame-ntp_packet plain generated 258 generated_lem refl refl)
      (λ e. absurd (omega (arith, generated_ethertype)))
      (λ e. absurd (omega (arith, generated_ethertype)))
