-- ===== src/MediaVideo/Loaded.antt =====
-- What is loaded from libmpv, and for how long.
use Prim.Native.String.{String}
use mathlib.Core.Path.{subst}
use centroid_x.Common.{
  ℕ, ◌≡◌, ◌≢◌, refl, ap, sym, ◌⊎◌, inl, inr, List, [], ◌∷◌, none, some, Bool-cases, ◌==◌,
  if◌then◌else◌, arith,
}
use centroid_x.MediaVideo.Library.{
  MpvApi, required_mpv_symbols, Addresses, found, missing, with_address, resolve_all, address_at,
  Load, loaded, refused, load_mpv_api, Linker, first_load, calls,
}

-- The first name that has no address.
abbrev pub IsFirstMissing : (String → ℕ) → List String → String → Type 0
IsFirstMissing resolve [] name = ⊥
IsFirstMissing resolve (n ∷ names) name =
    ((name ≡ n) × (resolve n ≡ 0)) ⊎ ((resolve n ≢ 0) × IsFirstMissing resolve names name)

abbrev pub AllResolve : (String → ℕ) → List String → Type 0
AllResolve resolve [] = Unit {0}
AllResolve resolve (n ∷ names) = (resolve n ≢ 0) × AllResolve resolve names

abbrev addresses_of : (String → ℕ) → List String → List ℕ
addresses_of resolve [] = []
addresses_of resolve (n ∷ names) = resolve n ∷ addresses_of resolve names

abbrev Outcome : (String → ℕ) → List String → Addresses → Type 0
Outcome resolve names (found addresses) =
    AllResolve resolve names × (addresses ≡ addresses_of resolve names)
Outcome resolve names (missing name) = IsFirstMissing resolve names name

if-Outcome :
    (resolve : String → ℕ) (n : String) (names : List String) (rest : Addresses)
    → Outcome resolve names rest
    → Outcome resolve
        (n ∷ names)
        (if resolve n == 0 then missing n else with_address (resolve n) rest)
unfolding with_address
if-Outcome resolve n names (found addresses) (all, e) = elim (Bool-cases (resolve n == 0)) [
  | inl z ↦ rw z (inl (refl, ground (arith, z)))
  | inr z ↦ rw z ((ground (arith, z), all), ap (λ (l : List ℕ). resolve n ∷ l) e)
]
if-Outcome resolve n names (missing name) e = elim (Bool-cases (resolve n == 0)) [
  | inl z ↦ rw z (inl (refl, ground (arith, z)))
  | inr z ↦ rw z (inr (ground (arith, z), e))
]

resolve_all-Outcome :
    (resolve : String → ℕ) (names : List String) → Outcome resolve names (resolve_all resolve names)
unfolding resolve_all
resolve_all-Outcome resolve [] = (tt, refl)
resolve_all-Outcome resolve (n ∷ names) =
    if-Outcome resolve n names (resolve_all resolve names) (resolve_all-Outcome resolve names)

abbrev pub api_of : (String → ℕ) → MpvApi
api_of resolve = record {
  render_context_create = resolve "mpv_render_context_create";
  render_context_render = resolve "mpv_render_context_render";
  render_context_set_update_callback = resolve "mpv_render_context_set_update_callback";
  render_context_free = resolve "mpv_render_context_free";
  get_property = resolve "mpv_get_property";
  free_node_contents = resolve "mpv_free_node_contents";
}

abbrev table_of : List ℕ → MpvApi
table_of addresses = record {
  render_context_create = address_at addresses 0;
  render_context_render = address_at addresses 1;
  render_context_set_update_callback = address_at addresses 2;
  render_context_free = address_at addresses 3;
  get_property = address_at addresses 4;
  free_node_contents = address_at addresses 5;
}

abbrev load_of : Addresses → Load
load_of (missing name) = refused name
load_of (found addresses) = loaded (table_of addresses)

load-eq :
    (resolve : String → ℕ)
    → load_mpv_api resolve ≡ load_of (resolve_all resolve required_mpv_symbols)
unfolding load_mpv_api
load-eq resolve =
    elim (resolve_all resolve required_mpv_symbols)
      as (λ a.
        elim a as (λ _. Load) [
          | missing name ↦ refused name
          | found addresses ↦ loaded (table_of addresses)
        ]
        ≡ load_of a) [ missing name ↦ refl | found addresses ↦ refl ]

abbrev pub LoadsAll : (String → ℕ) → Load → Type 0
LoadsAll resolve load =
    (AllResolve resolve required_mpv_symbols × (load ≡ loaded (api_of resolve)))
    ⊎ ((name : String) × IsFirstMissing resolve required_mpv_symbols name × (load ≡ refused name))

by-Outcome :
    (resolve : String → ℕ) (a : Addresses)
    → Outcome resolve required_mpv_symbols a
    → LoadsAll resolve (load_of a)
by-Outcome resolve (found addresses) (all, e) =
    inl (all, ap (λ (l : List ℕ). loaded (table_of l)) e)
by-Outcome resolve (missing name) e = inr (name, e, refl)

-- For every resolver: when all six names resolve, the library loads and each function pointer is the
-- address of its own name; and otherwise the load is refused with the first name that does not resolve.
pub load_mpv_api-LoadsAll : (resolve : String → ℕ) → LoadsAll resolve (load_mpv_api resolve)
load_mpv_api-LoadsAll resolve = subst (LoadsAll resolve) (sym (load-eq resolve)) (
    by-Outcome resolve (resolve_all resolve required_mpv_symbols)
      (resolve_all-Outcome resolve required_mpv_symbols))

abbrev pub AllEqual : Load → List Load → Type 0
AllEqual load [] = Unit {0}
AllEqual load (l ∷ loads) = (l ≡ load) × AllEqual load loads

cached-calls : (load : Load) (linkers : List Linker) → AllEqual load (calls linkers (some load))
unfolding calls
cached-calls load [] = tt
cached-calls load (linker ∷ linkers) = (refl, cached-calls load linkers)

-- Every call in a process answers as the first does, whatever can be linked later: a library that was
-- not there, or too old, at the first call is refused ever after.
pub calls-AllEqual :
    (linker : Linker) (linkers : List Linker)
    → AllEqual (first_load linker) (calls (linker ∷ linkers) none)
unfolding calls
calls-AllEqual linker linkers = (refl, cached-calls (first_load linker) linkers)
