-- ===== src/DragDrop/Rebuilds.antt =====
-- Any number of rebuilds, with the revocation before each teardown and without it.
use centroid_x.Common.{
  ℕ, zero, suc, ◌+◌, ◌≡◌, refl, sym, ap, ◌∙◌, Bool, true, false, List, [], ◌∷◌, ◌++◌, Option, none,
  some, length, length-append, get_elem?, set, replicate, arith, append_assoc, append-nil, ◌==◌,
}
use centroid_x.DragDrop.{
  Target, Lifetime, new, new_target, add_ref, register, release, depth, revoke, create_controller,
  note_leak, destroy_controller, live, live_targets,
}

-- The controller is built and torn down, `n` times.
unfoldable pub cycles : ℕ → Lifetime → Lifetime
cycles zero m = m
cycles (suc n) m = cycles n (destroy_controller (create_controller m))

module _ {ℓ} {A : Type ℓ} where
  get_elem?-last : (xs : List A) (a : A) → get_elem? (xs ++ a ∷ []) (length xs) ≡ some a
  get_elem?-last [] a = refl
  get_elem?-last (x ∷ xs) a = get_elem?-last xs a

  set-last : (xs : List A) (a b : A) → set (xs ++ a ∷ []) (length xs) b ≡ xs ++ b ∷ []
  set-last [] a b = refl
  set-last (x ∷ xs) a b = ap (λ ys. x ∷ ys) (set-last xs a b)

live-append : (xs ys : List Target) → live (xs ++ ys) ≡ live xs + live ys
live-append [] ys = omega arith
live-append (x ∷ xs) ys = omega (arith, live-append xs ys)

abbrev pub counted : ℕ → Target
counted n = record { refcount = n; freed = false }

-- A target freed at its second Release.
abbrev pub freed_target : Target
freed_target = record { refcount = 0; freed = true }

-- A model without a use after free, by its other fields.
abbrev pub state : Bool → Bool → Bool → ℕ → List Target → Option ℕ → Option ℕ → Lifetime
state revokes up collision leaked targets registered plugin = record {
  runner_revokes = revokes;
  controller_up = up;
  use_after_free = false;
  registration_collision = collision;
  leaked_registrations = leaked;
  targets = targets;
  registered_index = registered;
  plugin_target_index = plugin;
}

module _ (r up c : Bool) (l : ℕ) (xs : List Target) where
  -- The last target's count, up and down.
  add_ref-last :
      (reg plug : Option ℕ) (k : ℕ)
      → add_ref (state r up c l (xs ++ counted k ∷ []) reg plug) (length xs)
        ≡ state r up c l (xs ++ counted (k + 1) ∷ []) reg plug
  unfolding add_ref
  add_ref-last reg plug k =
      rw (get_elem?-last xs (counted k), add_ref, set-last xs (counted k) (counted (k + 1))) refl

  release-shared :
      (reg plug : Option ℕ) (d : ℕ)
      → release (suc d) (state r up c l (xs ++ counted 2 ∷ []) reg plug) (some (length xs))
        ≡ state r up c l (xs ++ counted 1 ∷ []) reg plug
  unfolding release
  release-shared reg plug d =
      rw (get_elem?-last xs (counted 2), release, set-last xs (counted 2) (counted 1)) refl

  release-last :
      (plug : Option ℕ) (d : ℕ)
      → release (suc d) (state r up c l (xs ++ counted 1 ∷ []) none plug) (some (length xs))
        ≡ state r up c l (xs ++ freed_target ∷ []) none plug
  unfolding release
  release-last plug d =
      rw (get_elem?-last xs (counted 1), release, set-last xs (counted 1) freed_target) refl

-- A controller in a window without a registration.
create_controller-vacant :
    (r c : Bool) (l : ℕ) (xs : List Target)
    → create_controller (state r false c l xs none none)
      ≡ state r true c l (xs ++ counted 2 ∷ []) (some (length xs)) (some (length xs))
unfolding create_controller new_target register
create_controller-vacant r c l xs =
    ap (λ (m : Lifetime). record (add_ref m (length xs)) { plugin_target_index = some (length xs) })
      (add_ref-last r true c l xs (some (length xs)) none 0)
    ∙ ap (λ (m : Lifetime). record m { plugin_target_index = some (length xs) })
        (add_ref-last r true c l xs (some (length xs)) none 1)

revoke-shared :
    (c : Bool) (l : ℕ) (xs : List Target) (plug : Option ℕ)
    → revoke (state true true c l (xs ++ counted 2 ∷ []) (some (length xs)) plug)
      ≡ state true true c l (xs ++ counted 1 ∷ []) none plug
unfolding revoke
revoke-shared c l xs plug = release-shared true true c l xs none plug 1

-- With the revocation, its two references go one after the other.
destroy_controller-revoking :
    (c : Bool) (l : ℕ) (xs : List Target)
    → destroy_controller
        (state true true c l (xs ++ counted 2 ∷ []) (some (length xs)) (some (length xs)))
      ≡ state true false c l (xs ++ freed_target ∷ []) none none
unfolding destroy_controller note_leak
destroy_controller-revoking c l xs =
    ap
      (λ (m : Lifetime). note_leak (record (release depth m m.plugin_target_index) {
        plugin_target_index = none;
        controller_up = false;
      }))
      (revoke-shared c l xs (some (length xs)))
    ∙ ap
        (λ (m : Lifetime).
          note_leak (record m { plugin_target_index = none; controller_up = false }))
        (release-last true true c l xs (some (length xs)) 1)

cycles-settled :
    (n : ℕ) (c : Bool) (l : ℕ) (xs : List Target)
    → cycles n (state true false c l xs none none)
      ≡ state true false c l (xs ++ replicate n freed_target) none none
unfolding cycles
cycles-settled zero c l xs =
    ap (λ (ys : List Target). state true false c l ys none none) (sym (append-nil xs))
cycles-settled (suc n) c l xs =
    ap (λ (m : Lifetime). cycles n (destroy_controller m)) (create_controller-vacant true c l xs)
    ∙ ap (cycles n) (destroy_controller-revoking c l xs)
    ∙ cycles-settled n c l (xs ++ freed_target ∷ [])
    ∙ ap (λ (ys : List Target). state true false c l ys none none)
        (append_assoc xs (freed_target ∷ []) (replicate n freed_target))

live-replicate : (n : ℕ) → live (replicate n freed_target) ≡ 0
live-replicate zero = refl
live-replicate (suc n) = omega (arith, live-replicate n)

length-replicate : (n : ℕ) → length (replicate n freed_target) ≡ n
length-replicate zero = refl
length-replicate (suc n) = omega (arith, length-replicate n)

-- With the revocation before each teardown the counts balance over any number of rebuilds: after n
-- of them there was no release of a freed target and no second registration, no registration
-- outlived its controller, the window is vacant and none of the n targets is alive; and the next
-- controller has exactly one.
pub cycles-revoking :
    (n : ℕ)
    → let m = cycles n (new true) in
      (m.use_after_free ≡ false)
      × (m.registration_collision ≡ false)
      × (m.leaked_registrations ≡ 0)
      × (m.registered_index ≡ none)
      × (length m.targets ≡ n)
      × (live_targets m ≡ 0)
      × (live_targets (create_controller m) ≡ 1)
unfolding new live_targets
cycles-revoking n =
    let e = cycles-settled n false 0 [] in
    rw (e, create_controller-vacant true false 0 (replicate n freed_target))
      (
        refl,
        refl,
        refl,
        refl,
        length-replicate n,
        live-replicate n,
        omega (arith, live-append (replicate n freed_target) (counted 2 ∷ []), live-replicate n),
      )

module _ {ℓ} {A : Type ℓ} where
  get_elem?-middle : (xs ys : List A) (a : A) → get_elem? (xs ++ a ∷ ys) (length xs) ≡ some a
  get_elem?-middle [] ys a = refl
  get_elem?-middle (x ∷ xs) ys a = get_elem?-middle xs ys a

  set-middle : (xs ys : List A) (a b : A) → set (xs ++ a ∷ ys) (length xs) b ≡ xs ++ b ∷ ys
  set-middle [] ys a b = refl
  set-middle (x ∷ xs) ys a b = ap (λ zs. x ∷ zs) (set-middle xs ys a b)

-- Without the revocation: the first target keeps the reference of its registration.
destroy_controller-leaking :
    (c : Bool) (l : ℕ) (xs : List Target)
    → destroy_controller
        (state false true c l (xs ++ counted 2 ∷ []) (some (length xs)) (some (length xs)))
      ≡ state false false c (l + 1) (xs ++ counted 1 ∷ []) (some (length xs)) none
unfolding destroy_controller note_leak
destroy_controller-leaking c l xs =
    ap
      (λ (m : Lifetime). note_leak (record m { plugin_target_index = none; controller_up = false }))
      (release-shared false true c l xs (some (length xs)) (some (length xs)) 1)

-- The next one collides with it.
create_controller-occupied :
    (c : Bool) (l : ℕ) (xs : List Target) (occupant : ℕ)
    → create_controller (state false false c l xs (some occupant) none)
      ≡ state false true true l (xs ++ counted 1 ∷ []) (some occupant) (some (length xs))
unfolding create_controller new_target register
create_controller-occupied c l xs occupant =
    ap (λ (m : Lifetime). record m { plugin_target_index = some (length xs) })
      (add_ref-last false true true l xs (some occupant) none 0)

module _ (r up c : Bool) (l : ℕ) (plug : Option ℕ) (d : ℕ) where
  -- A target with one reference, in an empty window and in one where another is registered.
  release-middle :
      (xs ys : List Target)
      → release (suc d) (state r up c l (xs ++ counted 1 ∷ ys) none plug) (some (length xs))
        ≡ state r up c l (xs ++ freed_target ∷ ys) none plug
  unfolding release
  release-middle xs ys =
      rw (get_elem?-middle xs ys (counted 1), release, set-middle xs ys (counted 1) freed_target)
        refl

  release-occupied :
      (xs : List Target) (occupant : ℕ)
      → (occupant == length xs) ≡ false
      → release
          (suc d)
          (state r up c l (xs ++ counted 1 ∷ []) (some occupant) plug)
          (some (length xs))
        ≡ release d (state r up c l (xs ++ freed_target ∷ []) none plug) (some occupant)
  unfolding release
  release-occupied xs occupant h =
      rw (get_elem?-last xs (counted 1), release, set-last xs (counted 1) freed_target, h) refl

before-last : (xs : List Target) → (length xs == length (xs ++ counted 1 ∷ [])) ≡ false
before-last xs = ground (arith, length-append xs (counted 1 ∷ []))

-- Its teardown frees it, and with it the first.
destroy_controller-cascading :
    (c : Bool) (l : ℕ) (xs : List Target)
    → let ys = xs ++ counted 1 ∷ [] in
      destroy_controller
        (state false true c l (ys ++ counted 1 ∷ []) (some (length xs)) (some (length ys)))
      ≡ state false false c l (xs ++ freed_target ∷ freed_target ∷ []) none none
unfolding destroy_controller note_leak
destroy_controller-cascading c l xs =
    let ys = xs ++ counted 1 ∷ [] in
    let plug = some (length ys) in
    ap
      (λ (m : Lifetime). note_leak (record m { plugin_target_index = none; controller_up = false }))
      (release-occupied false true c l plug 1 ys (length xs) (before-last xs)
        ∙ ap
            (λ (zs : List Target). release 1 (state false true c l zs none plug) (some (length xs)))
            (append_assoc xs (counted 1 ∷ []) (freed_target ∷ []))
        ∙ release-middle false true c l plug 0 xs (freed_target ∷ []))

cycles-two :
    (n : ℕ) (c : Bool) (l : ℕ) (xs : List Target)
    → cycles (suc (suc n)) (state false false c l xs none none)
      ≡ cycles n (state false false true (l + 1) (xs ++ freed_target ∷ freed_target ∷ []) none none)
unfolding cycles
cycles-two n c l xs =
    ap (λ (m : Lifetime). cycles (suc n) (destroy_controller m))
      (create_controller-vacant false c l xs)
    ∙ ap (cycles (suc n)) (destroy_controller-leaking c l xs)
    ∙ ap (λ (m : Lifetime). cycles n (destroy_controller m))
        (create_controller-occupied c (l + 1) (xs ++ counted 1 ∷ []) (length xs))
    ∙ ap (cycles n) (destroy_controller-cascading true (l + 1) xs)

abbrev pub twice : ℕ → ℕ
twice zero = zero
twice (suc n) = suc (suc (twice n))

-- What every second rebuild leaves without the revocation.
record Leaked (n : ℕ) (m : Lifetime) : Type 0 where
  safe : m.use_after_free ≡ false
  leaked : m.leaked_registrations ≡ n
  drained : live m.targets ≡ 0
  vacant : m.registered_index ≡ none

cycles-Leaked :
    (n : ℕ) (c : Bool) (l : ℕ) (xs : List Target)
    → live xs ≡ 0
    → Leaked (l + n) (cycles (twice n) (state false false c l xs none none))
unfolding cycles
cycles-Leaked zero c l xs h = record {
  safe = refl;
  leaked = omega arith;
  drained = h;
  vacant = refl;
}
cycles-Leaked (suc n) c l xs h =
    let rest =
      cycles-Leaked n true (l + 1) (xs ++ freed_target ∷ freed_target ∷ [])
        (omega (arith, h, live-append xs (freed_target ∷ freed_target ∷ []))) in
    rw (cycles-two (twice n) c l xs) (record {
      safe = rest.safe;
      leaked = omega (arith, rest.leaked);
      drained = rest.drained;
      vacant = rest.vacant;
    })

-- Without the revocation every second controller collides with the registration that the one before
-- left behind: after an even number of rebuilds half of them have leaked a registration. Yet no
-- target is ever released after it was freed, and none is left alive, since the teardown that frees
-- the second target releases the first.
pub cycles-leaking :
    (n : ℕ)
    → let m = cycles (twice n) (new false) in
      (m.leaked_registrations ≡ n)
      × (m.use_after_free ≡ false)
      × (live_targets m ≡ 0)
      × (m.registered_index ≡ none)
unfolding new live_targets
cycles-leaking n =
    let k = cycles-Leaked n false 0 [] refl in
    (omega (arith, k.leaked), k.safe, k.drained, k.vacant)
