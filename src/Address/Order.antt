-- ===== src/Address/Order.antt =====
-- What the result of `ftn_address_compare` of src/ftn.c says.
use lib_ftn.Common.{ℕ, ◌^◌, ◌≤◌, ◌<◌, arith, ◌≡◌, ◌↔◌, ◌⊎◌, inl, inr, refl, ap}
use lib_ftn.Common.{◌==◌, if◌then◌else◌}
use lib_ftn.Address.{Address, difference, address_compare}

-- Fields that an `int` holds too.
pub record IsSmall (a : Address) : Type 0 where
  pub zone_small : a.zone < 2 ^ 31
  pub net_small : a.net < 2 ^ 31
  pub node_small : a.node < 2 ^ 31
  pub point_small : a.point < 2 ^ 31

-- The address comes first: by the zone, then the net, the node and the point.
abbrev pub IsBefore : Address → Address → Type 0
IsBefore a b =
    (a.zone < b.zone)
    ⊎ ((a.zone ≡ b.zone)
        × ((a.net < b.net)
            ⊎ ((a.net ≡ b.net) × ((a.node < b.node) ⊎ ((a.node ≡ b.node) × (a.point < b.point))))))

-- The `int` is negative.
abbrev pub IsNegative : ℕ → Type 0
IsNegative word = 2 ^ 31 ≤ word

module _ (x y rest : ℕ) (hx : x < 2 ^ 31) (hy : y < 2 ^ 31) where
  abbrev choice : ℕ
  choice = if x == y then rest else difference x y

  choice-zero : (choice ≡ 0) ↔ ((x ≡ y) × (rest ≡ 0))
  choice-zero = ground arith

  -- `Later` says when what is behind the field decides for the first address.
  choice-IsNegative :
      {Later : Type 0} → IsNegative rest ↔ Later → IsNegative choice ↔ ((x < y) ⊎ ((x ≡ y) × Later))
  choice-IsNegative (to, from) = (
    (λ n. elim (before n) [ inl less ↦ inl less | inr (same, more) ↦ inr (same, to more) ]),
    (λ w. elim w [
      | inl less ↦ after (inl less)
      | inr (same, later) ↦ after (inr (same, from later))
    ]),
  )
    where
      before : IsNegative choice → (x < y) ⊎ ((x ≡ y) × IsNegative rest)
      before n = ground arith

      after : (x < y) ⊎ ((x ≡ y) × IsNegative rest) → IsNegative choice
      after w = ground arith

choice-IsNegative_last :
    (x y : ℕ) (hx : x < 2 ^ 31) (hy : y < 2 ^ 31) → IsNegative (choice x y 0 hx hy) ↔ (x < y)
choice-IsNegative_last x y hx hy = ground arith

same_fields :
    (a b : Address) → a.zone ≡ b.zone → a.net ≡ b.net → a.node ≡ b.node → a.point ≡ b.point → a ≡ b
same_fields a b p q r s = λ i. record { zone = p i; net = q i; node = r i; point = s i }

-- For addresses whose fields are less than 2 ^ 31, the result of the comparison is 0 exactly for equal
-- addresses, and negative exactly if the first one comes before by zone, net, node and point.
pub address_compare_lem :
    (a b : Address)
    → IsSmall a
    → IsSmall b
    → ((address_compare a b ≡ 0) ↔ (a ≡ b)) × (IsNegative (address_compare a b) ↔ IsBefore a b)
unfolding address_compare
address_compare_lem a b h k =
    let points = choice a.point b.point 0 h.point_small k.point_small in
    let nodes = choice a.node b.node points h.node_small k.node_small in
    let nets = choice a.net b.net nodes h.net_small k.net_small in
    let zero1 = choice-zero a.point b.point 0 h.point_small k.point_small in
    let zero2 = choice-zero a.node b.node points h.node_small k.node_small in
    let zero3 = choice-zero a.net b.net nodes h.net_small k.net_small in
    let zero4 = choice-zero a.zone b.zone nets h.zone_small k.zone_small in
    (
      (
        (λ e.
            let (p, e3) = zero4.0 e in
            let (q, e2) = zero3.0 e3 in
            let (r, e1) = zero2.0 e2 in let (s, _) = zero1.0 e1 in same_fields a b p q r s),
        (λ e.
            let last = zero1.1 (ap (λ t. t.point) e, refl) in
            zero4.1 (
              ap (λ t. t.zone) e,
              zero3.1 (ap (λ t. t.net) e, zero2.1 (ap (λ t. t.node) e, last)),
            )),
      ),
      choice-IsNegative a.zone b.zone nets h.zone_small k.zone_small (
          choice-IsNegative a.net b.net nodes h.net_small k.net_small (
            choice-IsNegative a.node b.node points h.node_small k.node_small
              (choice-IsNegative_last a.point b.point h.point_small k.point_small))),
    )
