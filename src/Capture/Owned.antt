-- ===== src/Capture/Owned.antt =====
-- Which sockets the manager of exporter/internal/capture/manager.go has open: none is lost, and no
-- other one is closed.
use ntp_server.Base.{
  ℕ, zero, suc, ◌+◌, ◌≤◌, ◌<◌, ◌≡◌, refl, inl, inr, Option, none, some, List, [], ◌∷◌, ◌++◌, ltb,
  nat_eqb, get_elem?, get_elem?-lt, Option-cases, length, length-set, length-append, if◌then◌else◌,
  arith, Returns, sum_of, sum_of-set, sum_of-append,
}
use ntp_server.Capture.Sockets.{
  Attempt, no_socket, no_filter, no_fanout, joined, Ledger, Manager, create, close_socket, close_in,
  close_all, new_socket, open_loop, reopen_worker,
}

abbrev pub is_one : ℕ → ℕ → ℕ
is_one j s = if nat_eqb s j then 1 else 0

-- how often a socket is in a list
abbrev pub occurrences : ℕ → List ℕ → ℕ
occurrences j = sum_of (is_one j)

-- A socket is held at most once, and is given out only once.
pub record IsLedger (k : Ledger) : Type 0 where
  pub once : (j : ℕ) → occurrences j k.held ≤ 1
  pub given : (j : ℕ) → 0 < occurrences j k.held → j < k.fresh

-- What is held in `k` is what was held in `k₀`, and the sockets.
abbrev pub Owns : Ledger → List ℕ → Ledger → Type 0
Owns k₀ sockets k = (j : ℕ) → occurrences j k.held ≡ occurrences j k₀.held + occurrences j sockets

pub occurrences-close_socket :
    (j s : ℕ) (ts : List ℕ)
    → occurrences j (close_socket s ts) ≡ (if nat_eqb s j then 0 else occurrences j ts)
unfolding close_socket
occurrences-close_socket j s [] = ground arith
occurrences-close_socket j s (t ∷ ts) = ground (arith, occurrences-close_socket j s ts)

pub close_in-IsLedger : (s : ℕ) (k : Ledger) → IsLedger k → IsLedger (close_in s k)
close_in-IsLedger s k v = record {
  once = λ j. ground (arith, occurrences-close_socket j s k.held, v.once j);
  given = λ j h. ground (arith, occurrences-close_socket j s k.held, v.given j);
}

occurrences-close_all :
    (j : ℕ) (ss : List ℕ) (k : Ledger)
    → occurrences j (close_all ss k).held
      ≡ (if ltb 0 (occurrences j ss) then 0 else occurrences j k.held)
unfolding close_all
occurrences-close_all j [] k = ground arith
occurrences-close_all j (s ∷ ss) k =
    ground (arith, occurrences-close_all j ss (close_in s k), occurrences-close_socket j s k.held)

pub close_all-IsLedger : (ss : List ℕ) (k : Ledger) → IsLedger k → IsLedger (close_all ss k)
unfolding close_all
close_all-IsLedger [] k v = v
close_all-IsLedger (s ∷ ss) k v = close_all-IsLedger ss (close_in s k) (close_in-IsLedger s k v)

pub close_all-Owns :
    (k₀ : Ledger) (ss : List ℕ) (k : Ledger)
    → IsLedger k
    → Owns k₀ ss k
    → Owns k₀ [] (close_all ss k)
close_all-Owns k₀ ss k v h j = ground (arith, occurrences-close_all j ss k, v.once j, h j)

-- a new socket is another one than those open
create-IsLedger : (k : Ledger) → IsLedger k → IsLedger (create k).1
unfolding create
create-IsLedger k v = record {
  once = λ j. ground (arith, v.once j, v.given j);
  given = λ j h. ground (arith, v.given j);
}

-- What `new_socket` returns: with a socket, that one more is open; with none, the same are open.
abbrev pub IsNew : Ledger → Option ℕ → Ledger → Type 0
IsNew k none next = IsLedger next × ((j : ℕ) → occurrences j next.held ≡ occurrences j k.held)
IsNew k (some s) next =
    IsLedger next
    × ((j : ℕ) → occurrences j next.held ≡ occurrences j k.held + occurrences j (s ∷ []))

failed-IsNew : (k : Ledger) → IsLedger k → IsNew k none (close_in (create k).0 (create k).1)
unfolding create
failed-IsNew k v = (
  close_in-IsLedger k.fresh (create k).1 (create-IsLedger k v),
  λ j. ground (arith, occurrences-close_socket j k.fresh (k.fresh ∷ k.held), v.given j),
)

pub new_socket-IsNew :
    (attempt : Attempt) (k : Ledger)
    → IsLedger k
    → IsNew k (new_socket attempt k).0 (new_socket attempt k).1
unfolding new_socket create
new_socket-IsNew no_socket k v = (v, λ j. refl)
new_socket-IsNew no_filter k v = failed-IsNew k v
new_socket-IsNew no_fanout k v = failed-IsNew k v
new_socket-IsNew joined k v = (create-IsLedger k v, λ j. omega arith)

-- what `open_loop` returns: `n` sockets, or none and no socket left open
abbrev pub IsOpened : Ledger → ℕ → Option (List ℕ) → Ledger → Type 0
IsOpened k₀ n none next = IsLedger next × Owns k₀ [] next
IsOpened k₀ n (some sockets) next = IsLedger next × Owns k₀ sockets next × (length sockets ≡ n)

pub open_loop-IsOpened :
    (attempt : ℕ → Attempt) (k₀ : Ledger) (n i : ℕ) (sockets : List ℕ) (k : Ledger)
    → IsLedger k
    → Owns k₀ sockets k
    → IsOpened k₀
        (length sockets + n)
        (open_loop attempt n i sockets k).0
        (open_loop attempt n i sockets k).1
unfolding open_loop
open_loop-IsOpened attempt k₀ zero i sockets k v h = (v, h, omega arith)
open_loop-IsOpened attempt k₀ (suc n) i sockets k v h =
    let next = (new_socket (attempt i) k).1 in
    let new = new_socket-IsNew (attempt i) k v in
    elim (Option-cases (new_socket (attempt i) k).0) [
      | inl failed ↦
          let (w, same) = rw failed at new in
          rw (open_loop, failed)
            (
              close_all-IsLedger sockets next w,
              close_all-Owns k₀ sockets next w (λ j. omega (arith, same j, h j)),
            )
      | inr (s, e) ↦
          let (w, more) = rw e at new in
          let rest =
            open_loop-IsOpened attempt k₀ n (i + 1) (sockets ++ (s ∷ [])) next w
              (λ j. omega (arith, more j, h j, sum_of-append (is_one j) sockets (s ∷ []))) in
          let size : length (sockets ++ (s ∷ [])) + n ≡ length sockets + suc n =
            omega (arith, length-append sockets (s ∷ [])) in
          rw (open_loop, e) (rw size at rest)
    ]

pub get-le_occurrences :
    (j i : ℕ) (sockets : List ℕ) {s : ℕ}
    → get_elem? sockets i ≡ some s
    → is_one j s ≤ occurrences j sockets
get-le_occurrences j i [] e = cc
get-le_occurrences j zero (t ∷ ts) e = ground arith
get-le_occurrences j (suc i) (t ∷ ts) e = omega (arith, get-le_occurrences j i ts e)

-- After `reopenWorker` the manager still has one open socket for each worker, and no other one.
pub reopen_worker-Owns :
    (k₀ : Ledger) (i : ℕ) (attempt : Attempt) (m : Manager) (k : Ledger)
    → i < length m.sockets
    → IsLedger k
    → Owns k₀ m.sockets k
    → Returns
        (reopen_worker i attempt m k)
        λ r. IsLedger r.2 × Owns k₀ r.1.sockets r.2 × (length r.1.sockets ≡ length m.sockets)
unfolding reopen_worker
reopen_worker-Owns k₀ i attempt m k inside v h =
    let next = (new_socket attempt k).1 in
    let new = new_socket-IsNew attempt k v in
    elim (Option-cases (new_socket attempt k).0) [
      | inl failed ↦
          let (w, same) = rw failed at new in
          rw (reopen_worker, failed) (_, refl, (w, (λ j. omega (arith, same j, h j)), refl))
      | inr (s, e) ↦
          let (w, more) = rw e at new in
          let (old, found) = get_elem?-lt m.sockets i inside in
          rw (reopen_worker, e, found)
            (
              _,
              refl,
              (
                close_in-IsLedger old next w,
                λ j. ground (
                  arith,
                  occurrences-close_socket j old next.held,
                  more j,
                  h j,
                  w.once j,
                  get-le_occurrences j i m.sockets found,
                  sum_of-set (is_one j) m.sockets i s found,
                ),
                length-set m.sockets i s,
              ),
            )
    ]
