-- ===== src/Aggregate/Pending.antt =====
-- What one call of `HandleFrame` (exporter/internal/aggregate/aggregate.go) does to the pending
-- requests of a shard.
use ntp_server.Base.{
  ℕ, ◌+◌, ◌-◌, ◌≤◌, ◌<◌, ◌≡◌, ◌≢◌, ◌∙◌, sym, refl, ap, false, inl, inr, Option, none, some, List,
  [], ◌∷◌, arith, length, get_elem?, get_elem?-map, leb, le→leb, Bool-cases, Option-cases, GoString,
  All-get, ◌==◌, string_eq, list_eqb_iff, ==_refl,
}
use ntp_server.Base.GoMap.{
  lookup, insert, keep_unless, lookup-insert, lookup-delete, lookup-delete_where,
  length-delete_where-le,
}
use ntp_server.Aggregate.{Collector, Shard, response_latency, pending_key, pending_max, pending_ttl}
use ntp_server.Aggregate.Handle.{is_stale, sweep_shard, sweep, remember, pair}
use ntp_server.Aggregate.Valid.{IsValid, IsValidShard}

-- the key under which the request of a frame is pending
abbrev pub key_of : GoString → Option (List ℕ) → Option GoString
key_of ip none = none
key_of ip (some xid) = some (pending_key ip xid)

-- the time of the request that is pending in a shard under a key
abbrev pub pending_in : GoString → Option Shard → Option ℕ
pending_in pk none = none
pending_in pk (some sh) = lookup pk sh.pending

abbrev pub pending_at : Collector → ℕ → GoString → Option ℕ
pending_at c k pk = pending_in pk (get_elem? c.shards k)

-- insertion and removal under another key
other_key : (pk k : GoString) → some pk ≢ some k → (pk == k) ≡ false
other_key pk k h = elim (Bool-cases (pk == k)) [
  | inl e ↦ absurd (h (ap some ((list_eqb_iff pk k).0 e)))
  | inr d ↦ d
]

module _ (F : Type 0) (ip : GoString) (ts : ℕ) (sh : Shard) where
  -- a request that is new and finds room is remembered
  pub remember-stores :
      (xid : List ℕ)
      → length sh.pending < pending_max
      → lookup (pending_key ip xid) (remember {F = F} ip (some xid) ts sh).0.pending ≡ some ts
  unfolding remember
  remember-stores xid room =
      let pk = pending_key ip xid in
      let stored : lookup pk (insert pk ts sh.pending) ≡ some ts =
        rw (lookup-insert pk pk ts sh.pending, ==_refl pk) in
      elim (Option-cases (lookup pk sh.pending)) [
        | inl e ↦
            let not_full : leb pending_max (length sh.pending) ≡ false = ground arith in
            rw (remember, e, not_full) stored
        | inr (old, e) ↦ rw (remember, e) stored
      ]

  -- a request leaves all other keys alone
  pub remember-keeps :
      (xid : Option (List ℕ)) (pk : GoString)
      → key_of ip xid ≢ some pk
      → lookup pk (remember {F = F} ip xid ts sh).0.pending ≡ lookup pk sh.pending
  unfolding remember
  remember-keeps none pk h = refl
  remember-keeps (some xid) pk h =
      let k = pending_key ip xid in
      let kept : lookup pk (insert k ts sh.pending) ≡ lookup pk sh.pending =
        rw (lookup-insert k pk ts sh.pending, other_key k pk h) in
      elim (Option-cases (lookup k sh.pending)) [
        | inl e ↦ elim (Bool-cases (leb pending_max (length sh.pending))) [
          | inl full ↦ rw (remember, e, full)
          | inr room ↦ rw (remember, e, room) kept
        ]
        | inr (old, e) ↦ rw (remember, e) kept
      ]

  pub pair-keeps :
      (xid : Option (List ℕ)) (pk : GoString)
      → key_of ip xid ≢ some pk
      → lookup pk (pair {F = F} ip xid ts sh).0.pending ≡ lookup pk sh.pending
  unfolding pair
  pair-keeps none pk h = refl
  pair-keeps (some xid) pk h =
      let k = pending_key ip xid in
      elim (Option-cases (lookup k sh.pending)) [
        | inl e ↦ rw (pair, e)
        | inr (old, e) ↦ rw (pair, e) (rw (lookup-delete k pk sh.pending, other_key k pk h))
      ]

  pub pair-removes :
      (xid : List ℕ)
      → lookup (pending_key ip xid) (pair {F = F} ip (some xid) ts sh).0.pending ≡ none
  unfolding pair
  pair-removes xid =
      let k = pending_key ip xid in
      elim (Option-cases (lookup k sh.pending)) [
        | inl e ↦ rw (pair, e) e
        | inr (old, e) ↦ rw (pair, e) (rw (lookup-delete k k sh.pending, ==_refl k))
      ]

  pub pair-observes :
      (xid : List ℕ) (req_ts : ℕ)
      → lookup (pending_key ip xid) sh.pending ≡ some req_ts
      → req_ts ≤ ts
      → (pair {F = F} ip (some xid) ts sh).1 ≡ response_latency (ts - req_ts) ∷ []
  unfolding pair
  pair-observes xid req_ts e h = rw (e, le→leb req_ts ts h)

-- the sweep removes exactly the requests that are older than the time to live
pub lookup-sweep_shard :
    (ts : ℕ) (sh : Shard) (pk : GoString)
    → IsValidShard sh
    → lookup pk (sweep_shard ts sh).pending ≡ keep_unless (is_stale ts) (lookup pk sh.pending)
unfolding sweep_shard
lookup-sweep_shard ts sh pk w = lookup-delete_where (is_stale ts) pk sh.pending w.1

is_stale_young : (ts t : ℕ) → ts ≤ t + pending_ttl → is_stale ts t ≡ false
unfolding is_stale
is_stale_young ts t h = ground arith

-- what a shard is after `sweep`: no longer than before, and with the same young requests
pub record Swept (ts : ℕ) (sh sh' : Shard) : Type 0 where
  pub shorter : length sh'.pending ≤ length sh.pending
  pub young :
      (pk : GoString) (t : ℕ)
      → ts ≤ t + pending_ttl
      → lookup pk sh.pending ≡ some t
      → lookup pk sh'.pending ≡ some t

Swept-sweep_shard : (ts : ℕ) (sh : Shard) → IsValidShard sh → Swept ts sh (sweep_shard ts sh)
Swept-sweep_shard ts sh w = record {
  shorter = unfold sweep_shard in length-delete_where-le (is_stale ts) sh.pending;
  young = λ pk t h e. rw (lookup-sweep_shard ts sh pk w, e, is_stale_young ts t h);
}

pub sweep-Swept :
    (ts k : ℕ) {c : Collector} {sh : Shard}
    → IsValid c
    → get_elem? c.shards k ≡ some sh
    → (sh' : Shard) × (get_elem? (sweep ts c).shards k ≡ some sh') × Swept ts sh sh'
unfolding sweep
sweep-Swept ts k {c} {sh} w e = elim (Bool-cases (leb 1024 (c.frames_since_sweep + 1))) [
  | inl due ↦ (
    sweep_shard ts sh,
    rw (sweep, due) (get_elem?-map (sweep_shard ts) c.shards k e),
    Swept-sweep_shard ts sh (All-get IsValidShard c.shards k e w.shards),
  )
  | inr not_due ↦
      (sh, rw (sweep, not_due) e, record { shorter = omega arith; young = λ pk t h p. p })
]

-- a pending request is in a shard that exists
pub shard_of :
    (c : Collector) (k : ℕ) (pk : GoString) {t : ℕ}
    → pending_at c k pk ≡ some t
    → (sh : Shard) × (get_elem? c.shards k ≡ some sh) × (lookup pk sh.pending ≡ some t)
shard_of c k pk e = elim (Option-cases (get_elem? c.shards k)) [
  | inl q ↦ let absurd_case : none ≡ some _ = sym (ap (pending_in pk) q) ∙ e in cc
  | inr (sh, q) ↦ (sh, q, sym (ap (pending_in pk) q) ∙ e)
]
