-- ===== src/DragDrop/Depth.antt =====
-- The depth given to Release is enough.
use centroid_x.Common.{
  ℕ, suc, ◌≡◌, refl, true, Option, none, some, get_elem?, set, ◌-◌, arith, Option-cases, inl, inr,
}
use centroid_x.DragDrop.{Lifetime, release, depth}

-- Without a registration Release does not call itself.
release-unregistered :
    (m : Lifetime) (index : ℕ) (d e : ℕ)
    → m.registered_index ≡ none
    → release (suc d) m (some index) ≡ release (suc e) m (some index)
unfolding release
release-unregistered m index d e h = ground (arith, Option-cases (get_elem? m.targets index))

-- A Release at any greater depth is the one at the depth given: it calls itself once at most.
pub release-depth :
    (m : Lifetime) (index : Option ℕ) (d : ℕ)
    → release (suc (suc d)) m index ≡ release depth m index
unfolding release
release-depth m none d = refl
release-depth m (some index) d = elim (Option-cases (get_elem? m.targets index)) [
  | inl e ↦ ground (arith, e)
  | inr (t, e) ↦ elim (Option-cases m.registered_index) [
    | inl v ↦ ground (arith, e, v)
    | inr (o, v) ↦
        let revoked = record m {
          targets = set m.targets index (record t { refcount = t.refcount - 1; freed = true });
          registered_index = none;
        } in
        ground (arith, e, v, release-unregistered revoked o d 0 refl)
  ]
]
