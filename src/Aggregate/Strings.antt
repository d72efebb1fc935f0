-- ===== src/Aggregate/Strings.antt =====
-- The order of strings, byte by byte, is a strict weak order.
use ntp_server.Base.{◌≡◌, refl, true, false, [], ◌∷◌, arith, GoString}
use ntp_server.Base.Order.{IsWeakOrder}
use ntp_server.Aggregate.Asn.{string_ltb}

string_ltb_asym : (a b : GoString) → string_ltb a b ≡ true → string_ltb b a ≡ false
unfolding string_ltb
string_ltb_asym [] [] h = refl
string_ltb_asym [] (y ∷ ys) h = refl
string_ltb_asym (x ∷ xs) [] h = cc
string_ltb_asym (x ∷ xs) (y ∷ ys) h = ground (arith, string_ltb_asym xs ys)

string_ltb_cotrans :
    (a b c : GoString) → string_ltb a b ≡ false → string_ltb b c ≡ false → string_ltb a c ≡ false
unfolding string_ltb
string_ltb_cotrans [] [] [] h k = refl
string_ltb_cotrans [] [] (z ∷ zs) h k = cc
string_ltb_cotrans [] (y ∷ ys) c h k = cc
string_ltb_cotrans (x ∷ xs) b [] h k = refl
string_ltb_cotrans (x ∷ xs) [] (z ∷ zs) h k = cc
string_ltb_cotrans (x ∷ xs) (y ∷ ys) (z ∷ zs) h k = ground (arith, string_ltb_cotrans xs ys zs)

pub string_ltb-IsWeakOrder : IsWeakOrder string_ltb
string_ltb-IsWeakOrder = record { asym = string_ltb_asym; cotrans = string_ltb_cotrans }
