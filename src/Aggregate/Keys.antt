-- ===== src/Aggregate/Keys.antt =====
-- `pendingKey` of exporter/internal/aggregate/aggregate.go: requests of different clients, and
-- different requests of one client, never share a key.
use ntp_server.Base.{ℕ, ◌≡◌, ◌≢◌, refl, List, [], ◌∷◌, ◌++◌, All, GoString}
use ntp_server.Aggregate.{pending_key}

-- no byte of the text is the separator
abbrev pub NoBar : GoString → Type 0
NoBar = All (λ b. b ≢ b'|')

split_unique :
    (a b : GoString) (x y : List ℕ)
    → NoBar a
    → NoBar b
    → a ++ (b'|' ∷ x) ≡ b ++ (b'|' ∷ y)
    → (a ≡ b) × (x ≡ y)
split_unique [] [] x y p q e = (refl, cc)
split_unique [] (c ∷ b) x y p q e = absurd (q.0 cc)
split_unique (c ∷ a) [] x y p q e = absurd (p.0 cc)
split_unique (c ∷ a) (d ∷ b) x y p q e =
    let (same, rest) = split_unique a b x y p.1 q.1 cc in (cc, rest)

-- If no address contains the byte `|`, equal keys have equal addresses and equal XIDs, whatever
-- bytes the XIDs have.
pub pending_key-injective :
    (a b : GoString) (x y : List ℕ)
    → NoBar a
    → NoBar b
    → pending_key a x ≡ pending_key b y
    → (a ≡ b) × (x ≡ y)
unfolding pending_key
pending_key-injective a b x y p q e = split_unique a b x y p q e
