-- ===== src/CacheHost/Trees.antt =====
-- RemoveTreeAt of cef_cache_paths_host.cc: what is left of an entry of a directory. A link is a leaf,
-- since it is opened with O_NOFOLLOW; the names "." and ".." are not among the entries.
use centroid_x.Common.{
  ℕ, ◌≡◌, refl, ◌↔◌, ◌⊎◌, inl, inr, Bool, true, false, not, ◌&&◌, List, Option, none, some,
  if◌then◌else◌, arith,
}

-- An entry with what the host allows: `openat` of a directory, `fdopendir` of its descriptor, and
-- `unlinkat` of the entry.
mutual
  pub data Entry : Type 0 where
    leaf : Bool → Entry
    directory : Bool → Bool → Bool → Entries → Entry

  pub data Entries : Type 0 where
    empty : Entries
    entry : List ℕ → Entry → Entries → Entries

abbrev pub has_none : Entries → Bool
has_none empty = true
has_none (entry name e rest) = false

-- `unlinkat` with AT_REMOVEDIR removes an empty directory only.
abbrev pub remove_directory : Bool → Bool → Bool → Entries → Option Entry
remove_directory opens lists unlinks left =
    if has_none left && unlinks then none else some (directory opens lists unlinks left)

abbrev pub keep : List ℕ → Option Entry → Entries → Entries
keep name none left = left
keep name (some e) left = entry name e left

-- Without AT_REMOVEDIR, `unlinkat` refuses a directory.
unfoldable mutual
  pub remove_tree_at : Entry → Option Entry
  remove_tree_at (leaf unlinks) = if unlinks then none else some (leaf unlinks)
  remove_tree_at (directory opens lists unlinks children) =
      let left = remove_children children in
      if not opens
      then some (directory opens lists unlinks children)
      else remove_directory opens lists unlinks (if lists then left else children)

  pub remove_children : Entries → Entries
  remove_children empty = empty
  remove_children (entry name e rest) = keep name (remove_tree_at e) (remove_children rest)

-- An entry that nothing keeps from being removed.
mutual
  pub IsRemovable : Entry → Type 0
  IsRemovable (leaf unlinks) = unlinks ≡ true
  IsRemovable (directory opens lists unlinks children) =
      (opens ≡ true)
      × (unlinks ≡ true)
      × (((lists ≡ true) × AllRemovable children) ⊎ ((lists ≡ false) × (has_none children ≡ true)))

  pub AllRemovable : Entries → Type 0
  AllRemovable empty = Unit {0}
  AllRemovable (entry name e rest) = IsRemovable e × AllRemovable rest

directory_cases :
    (opens lists unlinks : Bool) (children left : Entries)
    → ((if not opens
          then some (directory opens lists unlinks children)
          else remove_directory opens lists unlinks (if lists then left else children))
        ≡ none)
      ↔ ((opens ≡ true)
          × (unlinks ≡ true)
          × (((lists ≡ true) × (has_none left ≡ true))
              ⊎ ((lists ≡ false) × (has_none children ≡ true))))
directory_cases false lists unlinks children left = (λ e. absurd (cc), λ e. absurd (cc))
directory_cases true true unlinks children left = (
  λ e. (refl, ground (arith, e), inl (refl, ground (arith, e))),
  λ (o, u, k). elim k [ inl (l, h) ↦ ground (arith, u, h) | inr (l, h) ↦ absurd (cc) ],
)
directory_cases true false unlinks children left = (
  λ e. (refl, ground (arith, e), inr (refl, ground (arith, e))),
  λ (o, u, k). elim k [ inl (l, h) ↦ absurd (cc) | inr (l, h) ↦ ground (arith, u, h) ],
)

keep_cases :
    (name : List ℕ) (o : Option Entry) (left : Entries)
    → (has_none (keep name o left) ≡ true) ↔ ((o ≡ none) × (has_none left ≡ true))
keep_cases name none left = (λ e. (refl, e), λ (n, e). e)
keep_cases name (some e) left = (λ h. absurd (cc), λ (n, h). absurd (cc))

mutual
  unfolding remove_tree_at remove_children IsRemovable AllRemovable

  tree_cases : (e : Entry) → (remove_tree_at e ≡ none) ↔ IsRemovable e
  tree_cases (leaf true) = (λ e. refl, λ e. refl)
  tree_cases (leaf false) = (λ e. absurd (cc), λ e. absurd (cc))
  tree_cases (directory opens lists unlinks children) =
      let (sound, complete) =
        directory_cases opens lists unlinks children (remove_children children) in
      let (all, none_left) = children_cases children in
      (
        λ e.
            let (o, u, k) = sound e in
            (o, u, elim k [ inl (l, h) ↦ inl (l, all h) | inr h ↦ inr h ]),
        λ (o, u, k). complete (o, u, elim k [ inl (l, h) ↦ inl (l, none_left h) | inr h ↦ inr h ]),
      )

  children_cases :
      (children : Entries) → (has_none (remove_children children) ≡ true) ↔ AllRemovable children
  children_cases empty = (λ e. tt, λ e. refl)
  children_cases (entry name e rest) =
      let (sound, complete) = keep_cases name (remove_tree_at e) (remove_children rest) in
      let (goes, gone) = tree_cases e in
      let (all, none_left) = children_cases rest in
      (λ h. let (n, r) = sound h in (goes n, all r), λ (n, r). complete (gone n, none_left r))

-- A removal takes the whole tree exactly when nothing in it keeps it: every directory in it can be
-- opened and unlinked, and listed or empty, and every other entry can be unlinked.
pub remove_tree_at_iff : (e : Entry) → (remove_tree_at e ≡ none) ↔ IsRemovable e
remove_tree_at_iff e = tree_cases e
