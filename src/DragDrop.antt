-- ===== src/DragDrop.antt =====
-- centroid-hmi/windows/runner/drag_drop_lifetime.h and drag_drop_lifetime.cpp: the class
-- DragDropLifetimeModel, the reference counts of the OLE drop target over engine rebuilds. An index
-- of -1 is none, and a read out of range, which the source never makes, changes nothing. A count
-- stops at 0, where the source may take it to -1 in the step that frees the target.
pub mod Rebuilds
pub mod Depth
mod Tests
use centroid_x.Common.{
  ℕ, zero, suc, ◌+◌, ◌-◌, Bool, true, false, not, List, [], ◌∷◌, ◌++◌, Option, none, some, length,
  get_elem?, set, leb, ◌==◌, if◌then◌else◌,
}

pub record Target : Type 0 where
  pub refcount : ℕ
  pub freed : Bool

pub record Lifetime : Type 0 where
  pub runner_revokes : Bool
  pub controller_up : Bool
  pub use_after_free : Bool
  pub registration_collision : Bool
  pub leaked_registrations : ℕ
  pub targets : List Target
  pub registered_index : Option ℕ
  pub plugin_target_index : Option ℕ

unfoldable pub new : Bool → Lifetime
new runner_revokes = record {
  runner_revokes = runner_revokes;
  controller_up = false;
  use_after_free = false;
  registration_collision = false;
  leaked_registrations = 0;
  targets = [];
  registered_index = none;
  plugin_target_index = none;
}

-- The index that NewTarget returns is the length before.
unfoldable pub new_target : Lifetime → Lifetime
new_target m = record m { targets = m.targets ++ record { refcount = 0; freed = false } ∷ [] }

-- A target's count, one up.
unfoldable pub add_ref : Lifetime → ℕ → Lifetime
add_ref m index = elim (get_elem? m.targets index) [
  | none ↦ m
  | some target ↦ record m {
    targets = set m.targets index (record target { refcount = target.refcount + 1 });
  }
]

-- Release, on a bound for how deep it calls itself.
unfoldable pub release : ℕ → Lifetime → Option ℕ → Lifetime
release zero m index = m
release (suc depth) m none = m
release (suc depth) m (some index) = elim (get_elem? m.targets index) [
  | none ↦ m
  | some target ↦
      if target.freed
      then record m { use_after_free = true }
      else if leb target.refcount 1
      then (let m' = record m {
        targets =
            set m.targets index (record target { refcount = target.refcount - 1; freed = true });
      } in
          elim m.registered_index [
            | none ↦ m'
            | some occupant ↦
                let revoked = record m' { registered_index = none } in
                let released = release depth revoked (some occupant) in
                if occupant == index then revoked else released
          ])
      else record m {
        targets = set m.targets index (record target { refcount = target.refcount - 1 });
      }
]

-- A Release clears the registration before it calls itself, so it is two deep at most.
abbrev pub depth : ℕ
depth = 2

unfoldable pub revoke : Lifetime → Lifetime
revoke m = elim m.registered_index [
  | none ↦ m
  | some occupant ↦ release depth (record m { registered_index = none }) (some occupant)
]

-- RegisterDragDrop, in the constructor of the target: it fails on a window that has a registration.
unfoldable pub register : Lifetime → ℕ → Lifetime
register m target = elim m.registered_index [
  | none ↦ add_ref (record m { registered_index = some target }) target
  | some occupant ↦ record m { registration_collision = true }
]

unfoldable pub create_controller : Lifetime → Lifetime
create_controller m =
    let target = length m.targets in
    let m' = register (new_target (record m { controller_up = true })) target in
    record (add_ref m' target) { plugin_target_index = some target }

-- The end of DestroyController: a registration that outlives the controller.
unfoldable pub note_leak : Lifetime → Lifetime
note_leak m = elim m.registered_index [
  | none ↦ m
  | some occupant ↦ record m { leaked_registrations = m.leaked_registrations + 1 }
]

unfoldable pub destroy_controller : Lifetime → Lifetime
destroy_controller m =
    if not m.controller_up
    then m
    else let m' = if m.runner_revokes then revoke m else m in
      let m'' = release depth m' m'.plugin_target_index in
      note_leak (record m'' { plugin_target_index = none; controller_up = false })

-- The loop of live_targets.
abbrev pub live : List Target → ℕ
live [] = 0
live (target ∷ targets) = (if target.freed then 0 else 1) + live targets

unfoldable pub live_targets : Lifetime → ℕ
live_targets m = live m.targets
