-- ===== src/Optimizer/Ranking/Order.antt =====
-- The two tests by which ranking.py sorts are strict weak orders.
use revive_x.Prelude.{ℕ, ◌≡◌, refl, true, false, List, [], ◌∷◌, arith, length}
use revive_x.Prelude.Int.{ℤ, pos, ◌+ℤ◌, ◌-ℤ◌, ◌≤ℤ◌, ltb_ℤ, leb_ℤ, +ℤ_parts, -ℤ_parts}
use revive_x.Prelude.Sorted.{IsWeakOrder}
use revive_x.Optimizer.Ranking.{CandidateAction, tie_key, key_before, worth_more, key_less}

pub worth_more-IsWeakOrder : IsWeakOrder worth_more
worth_more-IsWeakOrder = record {
  irreflexive = λ x. ground arith;
  asymmetric = λ x y h. ground arith;
  chain = λ x y z h k. ground arith;
}

key_irreflexive : (x : List ℕ) → key_before x x ≡ false
unfolding key_before
key_irreflexive [] = refl
key_irreflexive (a ∷ as') = ground (arith, key_irreflexive as')

key_asymmetric : (x y : List ℕ) → key_before x y ≡ true → key_before y x ≡ false
unfolding key_before
key_asymmetric [] y h = ground arith
key_asymmetric (a ∷ as') [] h = ground arith
key_asymmetric (a ∷ as') (b ∷ bs) h = ground (arith, key_asymmetric as' bs)

key_chain :
    (x y z : List ℕ)
    → length x ≡ length y
    → length y ≡ length z
    → key_before y x ≡ false
    → key_before z y ≡ false
    → key_before z x ≡ false
unfolding key_before
key_chain x y [] e f h k = refl
key_chain [] y (c ∷ cs) e f h k = ground arith
key_chain (a ∷ as') [] (c ∷ cs) e f h k = ground arith
key_chain (a ∷ as') (b ∷ bs) (c ∷ cs) e f h k = ground (arith, key_chain as' bs cs)

length-tie_key : (c : CandidateAction) → length (tie_key c) ≡ 5
unfolding tie_key
length-tie_key c = refl

pub key_less-IsWeakOrder : IsWeakOrder key_less
key_less-IsWeakOrder = record {
  irreflexive = λ x. key_irreflexive (tie_key x);
  asymmetric = λ x y h. key_asymmetric (tie_key x) (tie_key y) h;
  chain = λ x y z h k.
      key_chain (tie_key x) (tie_key y) (tie_key z)
        (ground (arith, length-tie_key x, length-tie_key y))
        (ground (arith, length-tie_key y, length-tie_key z)) h k;
}

-- `b` is not less than `c`, and exceeds `w` by at most `e`.
pub within_margin : (b c w e : ℤ) → ltb_ℤ b c ≡ false → leb_ℤ (b -ℤ w) e ≡ true → c ≤ℤ w +ℤ e
within_margin b c w e h k = ground (arith, -ℤ_parts b w, +ℤ_parts w e)

pub margin_nonneg : (b w e : ℤ) → ltb_ℤ b w ≡ false → leb_ℤ (b -ℤ w) e ≡ true → pos 0 ≤ℤ e
margin_nonneg b w e h k = ground (arith, -ℤ_parts b w)
