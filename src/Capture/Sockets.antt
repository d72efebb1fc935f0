-- ===== src/Capture/Sockets.antt =====
-- exporter/internal/capture/manager.go: the sockets of the workers, from `Open` to `Close`. A
-- socket is a number; a ledger keeps those that the code has been given and has not closed.
use ntp_server.Base.{
  ℕ, zero, suc, ◌+◌, ◌*◌, ◌/◌, ◌%◌, ◌^◌, Option, none, some, List, [], ◌∷◌, ◌++◌, ltb, nat_eqb,
  get_elem?, set, if◌then◌else◌, Run, ok, or_panic, ◌>>=◌,
}
use ntp_server.Base.Int.{ℤ, pos, negsuc}
use ntp_server.Capture.Worker.{clamp_workers}

abbrev pub block_size : ℕ
block_size = 1048576

-- What becomes of the calls of `newSocket`: no socket, one that takes no filter or joins no fanout
-- group, or one that does.
pub data Attempt : Type 0 where
  no_socket no_filter no_fanout joined : Attempt

pub record Ledger : Type 0 where
  pub fresh : ℕ
  pub held : List ℕ

-- `Manager`
pub record Manager : Type 0 where
  pub num_workers : ℕ
  pub num_blocks : ℕ
  pub sockets : List ℕ

-- `afpacket.NewTPacket`, when it succeeds
unfoldable pub create : Ledger → ℕ × Ledger
create k = (k.fresh, record { fresh = k.fresh + 1; held = k.fresh ∷ k.held })

-- `Close` of a socket
unfoldable pub close_socket : ℕ → List ℕ → List ℕ
close_socket s [] = []
close_socket s (t ∷ ts) = let rest = close_socket s ts in if nat_eqb t s then rest else t ∷ rest

abbrev pub close_in : ℕ → Ledger → Ledger
close_in s k = record k { held = close_socket s k.held }

unfoldable pub close_all : List ℕ → Ledger → Ledger
close_all [] k = k
close_all (s ∷ ss) k = close_all ss (close_in s k)

-- `newSocket`; none is an error
unfoldable pub new_socket : Attempt → Ledger → Option ℕ × Ledger
new_socket no_socket k = (none, k)
new_socket no_filter k = let (s, k') = create k in (none, close_in s k')
new_socket no_fanout k = let (s, k') = create k in (none, close_in s k')
new_socket joined k = let (s, k') = create k in (some s, k')

-- The loop of `Open`: `n` sockets are left, and `sockets` are open; none is an error.
unfoldable pub open_loop : (ℕ → Attempt) → ℕ → ℕ → List ℕ → Ledger → Option (List ℕ) × Ledger
open_loop attempt zero i sockets k = (some sockets, k)
open_loop attempt (suc n) i sockets k =
    let (socket, next) = new_socket (attempt i) k in
    elim socket [
      | none ↦ (none, close_all sockets next)
      | some s ↦ open_loop attempt n (i + 1) (sockets ++ (s ∷ [])) next
    ]

-- `numBlocks`; a negative quotient is not above 0
unfoldable pub blocks_of : ℤ → ℕ → ℕ
blocks_of (pos ring_bytes) workers =
    let n = ring_bytes / workers / block_size in if ltb n 1 then 1 else n
blocks_of (negsuc n) workers = 1

-- `Open`: the manager and the gauge of the buffer bytes, or an error
unfoldable pub open_manager : ℤ → ℤ → (ℕ → Attempt) → Ledger → Option (Manager × ℕ) × Ledger
open_manager ring_bytes num_workers attempt k =
    let workers = clamp_workers num_workers in
    let blocks = blocks_of ring_bytes workers in
    let (sockets, next) = open_loop attempt workers 0 [] k in
    elim sockets [
      | none ↦ (none, next)
      | some ss ↦ (
        some (
          record { num_workers = workers; num_blocks = blocks; sockets = ss },
          blocks * block_size * workers,
        ),
        next,
      )
    ]

-- `reopenWorker`: the new socket, if there is one; a worker without a socket is a panic
unfoldable pub reopen_worker : ℕ → Attempt → Manager → Ledger → Run (Option ℕ × Manager × Ledger)
reopen_worker i attempt m k =
    let (socket, next) = new_socket attempt k in
    elim socket [
      | none ↦ ok (none, m, next)
      | some s ↦ or_panic (get_elem? m.sockets i) >>= λ old.
          ok (some s, record m { sockets = set m.sockets i s }, close_in old next)
    ]

-- `Close`
unfoldable pub close_manager : Manager → Ledger → Ledger
close_manager m k = close_all m.sockets k

-- `KernelDrops`, where none is a failed reading of a socket's statistics
unfoldable pub kernel_drops_from : (ℕ → Option ℕ) → ℕ → List ℕ → ℕ
kernel_drops_from stats sum [] = sum
kernel_drops_from stats sum (s ∷ ss) =
    kernel_drops_from stats (elim (stats s) [ none ↦ sum | some drops ↦ (sum + drops) % 2 ^ 64 ]) ss

abbrev pub kernel_drops : (ℕ → Option ℕ) → Manager → ℕ
kernel_drops stats m = kernel_drops_from stats 0 m.sockets
