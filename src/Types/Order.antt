-- ===== src/Types/Order.antt =====
-- types.h, `stream_id`: its comparison operators.
use qbm_redis.Base.{
  ◌≡◌, refl, sym, ap, ◌∙◌, ◌&&◌, ◌||◌, not, ◌↔◌, ◌⊎◌, inl, inr, Bool, true, false, arith,
}
use qbm_redis.Base.Int.{ℤ, pos, negsuc, ltb_ℤ, eqb_ℤ}
use qbm_redis.Types.{StreamId}
use qbm_redis.Types.Ids.{id_eq, id_lt}

ltb_irreflexive : (x : ℤ) → ltb_ℤ x x ≡ false
unfolding ltb_ℤ
ltb_irreflexive (pos n) = ground arith
ltb_irreflexive (negsuc n) = ground arith

eqb_refl : (x : ℤ) → eqb_ℤ x x ≡ true
unfolding eqb_ℤ
eqb_refl (pos n) = ground arith
eqb_refl (negsuc n) = ground arith

ltb_trans : (x y z : ℤ) → ltb_ℤ x y ≡ true → ltb_ℤ y z ≡ true → ltb_ℤ x z ≡ true
unfolding ltb_ℤ
ltb_trans (pos x) (pos y) (pos z) h k = ground arith
ltb_trans (pos x) (pos y) (negsuc z) h k = ground arith
ltb_trans (pos x) (negsuc y) (pos z) h k = ground arith
ltb_trans (pos x) (negsuc y) (negsuc z) h k = ground arith
ltb_trans (negsuc x) (pos y) (pos z) h k = ground arith
ltb_trans (negsuc x) (pos y) (negsuc z) h k = ground arith
ltb_trans (negsuc x) (negsuc y) (pos z) h k = ground arith
ltb_trans (negsuc x) (negsuc y) (negsuc z) h k = ground arith

eqb-equal : (x y : ℤ) → eqb_ℤ x y ≡ true → x ≡ y
unfolding eqb_ℤ
eqb-equal (pos x) (pos y) h = ap pos (ground arith)
eqb-equal (pos x) (negsuc y) h = ground arith
eqb-equal (negsuc x) (pos y) h = ground arith
eqb-equal (negsuc x) (negsuc y) h = ap negsuc (ground arith)

ltb_total : (x y : ℤ) → (ltb_ℤ x y ≡ true) ⊎ ((eqb_ℤ x y ≡ true) ⊎ (ltb_ℤ y x ≡ true))
unfolding ltb_ℤ eqb_ℤ
ltb_total (pos x) (pos y) = ground arith
ltb_total (pos x) (negsuc y) = ground arith
ltb_total (negsuc x) (pos y) = ground arith
ltb_total (negsuc x) (negsuc y) = ground arith

-- Where a lexicographic test holds.
lex_cases :
    (x y z w : ℤ)
    → (ltb_ℤ x y || (eqb_ℤ x y && ltb_ℤ z w)) ≡ true
    → (ltb_ℤ x y ≡ true) ⊎ ((x ≡ y) × (ltb_ℤ z w ≡ true))
lex_cases x y z w h = ground (arith, eqb-equal x y)

lex_first : (x y : ℤ) (b : Bool) → ltb_ℤ x y ≡ true → (ltb_ℤ x y || b) ≡ true
lex_first x y b h = rw h refl

lex_second :
    (x y z w : ℤ) → x ≡ y → ltb_ℤ z w ≡ true → (ltb_ℤ x y || (eqb_ℤ x y && ltb_ℤ z w)) ≡ true
lex_second x y z w h k = rw (h, k, eqb_refl y, ltb_irreflexive y) refl

eq_parts : (x y z w : ℤ) → (eqb_ℤ x y && eqb_ℤ z w) ≡ true → (x ≡ y) × (z ≡ w)
eq_parts x y z w h = ground (arith, eqb-equal x y, eqb-equal z w)

lex_total :
    (x y z w : ℤ)
    → ((ltb_ℤ x y || (eqb_ℤ x y && ltb_ℤ z w)) ≡ true)
      ⊎ (((eqb_ℤ x y && eqb_ℤ z w) ≡ true) ⊎ ((ltb_ℤ y x || (eqb_ℤ y x && ltb_ℤ w z)) ≡ true))
lex_total x y z w = elim (ltb_total x y) [
  | inl p ↦ inl (lex_first x y _ p)
  | inr (inr p) ↦ inr (inr (lex_first y x _ p))
  | inr (inl p) ↦ elim (ltb_total z w) [
    | inl q ↦ inl (lex_second x y z w (eqb-equal x y p) q)
    | inr (inl q) ↦ inr (inl (rw (p, q) refl))
    | inr (inr q) ↦ inr (inr (lex_second y x w z (sym (eqb-equal x y p)) q))
  ]
]

same_id : (a b : StreamId) → (a.timestamp ≡ b.timestamp) × (a.sequence ≡ b.sequence) → a ≡ b
same_id a b (h, k) = cc

-- Equality, totality and irreflexivity.
id_lt_total :
    (a b : StreamId)
    → ((id_eq a b ≡ true) ↔ (a ≡ b))
      × ((id_lt a b ≡ true) ⊎ ((id_eq a b ≡ true) ⊎ (id_lt b a ≡ true)))
      × (id_lt a a ≡ false)
unfolding id_eq id_lt
id_lt_total a b = (
  (
    λ h. same_id a b (eq_parts a.timestamp b.timestamp a.sequence b.sequence h),
    λ h. rw (h, eqb_refl b.timestamp, eqb_refl b.sequence) refl,
  ),
  lex_total a.timestamp b.timestamp a.sequence b.sequence,
  rw (ltb_irreflexive a.timestamp, ltb_irreflexive a.sequence, eqb_refl a.timestamp) refl,
)

lex_join :
    (x y z u v w : ℤ)
    → (ltb_ℤ x y ≡ true) ⊎ ((x ≡ y) × (ltb_ℤ u v ≡ true))
    → (ltb_ℤ y z ≡ true) ⊎ ((y ≡ z) × (ltb_ℤ v w ≡ true))
    → (ltb_ℤ x z || (eqb_ℤ x z && ltb_ℤ u w)) ≡ true
lex_join x y z u v w (inl p) (inl q) = lex_first x z _ (ltb_trans x y z p q)
lex_join x y z u v w (inl p) (inr (q, q2)) = lex_first x z _ (rw (sym q) p)
lex_join x y z u v w (inr (p, p2)) (inl q) = lex_first x z _ (rw p q)
lex_join x y z u v w (inr (p, p2)) (inr (q, q2)) =
    lex_second x z u w (p ∙ q) (ltb_trans u v w p2 q2)

id_lt_trans : (a b c : StreamId) → id_lt a b ≡ true → id_lt b c ≡ true → id_lt a c ≡ true
unfolding id_lt
id_lt_trans a b c h k =
    lex_join a.timestamp b.timestamp c.timestamp a.sequence b.sequence c.sequence
      (lex_cases a.timestamp b.timestamp a.sequence b.sequence h)
      (lex_cases b.timestamp c.timestamp b.sequence c.sequence k)

no_gap : (x y z : Bool) → (x ≡ true → y ≡ true → z ≡ true) → (x && (y && not z)) ≡ false
no_gap true true z h = rw (h refl refl)
no_gap true false z h = refl
no_gap false y z h = refl

-- `operator==` holds of equal ids only, and `operator<` with it is a strict total order: of two ids one
-- is less than the other or they are equal, no id is less than itself, and if one is less than a second
-- and this is less than a third, the first is less than the third.
pub id_lt_order :
    (a b c : StreamId)
    → ((id_eq a b ≡ true) ↔ (a ≡ b))
      × ((id_lt a b ≡ true) ⊎ ((id_eq a b ≡ true) ⊎ (id_lt b a ≡ true)))
      × (id_lt a a ≡ false)
      × ((id_lt a b && (id_lt b c && not (id_lt a c))) ≡ false)
id_lt_order a b c =
    let (equal, total, irreflexive) = id_lt_total a b in
    (equal, total, irreflexive, no_gap (id_lt a b) (id_lt b c) (id_lt a c) (id_lt_trans a b c))
