-- ===== src/Pool/Newest.antt =====
-- The choice of the newest entry by exporter/internal/ntppool/ntppool.go.
use ntp_server.Base.{◌≡◌, true, false, List, ◌∷◌, ◌++◌, arith, All}
use ntp_server.Base.Order.{IsWeakOrder}
use ntp_server.Aggregate.Strings.{string_ltb-IsWeakOrder}
use ntp_server.Pool.Scores.{Numbers, HistoryEntry, less, newer}

module _ {F : Type 0} (num : Numbers F) (ordered : IsWeakOrder num.less_float) where
  -- Unset before texts before numbers: whatever times are mixed, `less` is a strict weak order.
  pub less-IsWeakOrder : IsWeakOrder (less num)
  unfolding less
  less-IsWeakOrder = record {
    asym =
        λ t o h. ground (arith, ordered.asym t.num o.num, string_ltb-IsWeakOrder.asym t.str o.str);
    cotrans = λ t o u h k. ground (
      arith,
      ordered.cotrans t.num o.num u.num,
      string_ltb-IsWeakOrder.cotrans t.str o.str u.str,
    );
  }

  -- `e` is the first of the newest entries of `history`: those before it are older, and none behind
  -- it is newer.
  pub record IsNewest (history : List (HistoryEntry F)) (e : HistoryEntry F) : Type 0 where
    pub before : List (HistoryEntry F)
    pub after : List (HistoryEntry F)
    pub split : history ≡ before ++ (e ∷ after)
    pub older : All (λ b. newer num e b ≡ true) before
    pub latest : All (λ a. newer num a e ≡ false) after
