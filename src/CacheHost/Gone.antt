-- ===== src/CacheHost/Gone.antt =====
-- What a profile was seen to be whose owner is taken to be gone.
use mathlib.Core.Path.{subst}
use centroid_x.Common.{
  ℕ, ◌-◌, ◌≤◌, ◌≡◌, refl, sym, ap, ◌∙◌, inl, inr, true, false, ◌||◌, List, Option, none, some, ltb,
  arith, Bool-cases,
}
use centroid_x.Common.Int.{pos}
use centroid_x.CefCache.Sweep.{SingletonState, owner_alive, is_dead}
use centroid_x.CacheHost.{Os, Stat, path_exists, is_some}
use centroid_x.CacheHost.Sockets.{unix_socket_answers}
use centroid_x.CacheHost.Sweeps.{
  least, younger, youngest_or_zero, lock_path, cookie_path, socket_path, target_or, singleton_state,
}

abbrev AtMost : Option ℕ → ℕ → Type 0
AtMost none n = ⊥
AtMost (some y) n = y ≤ n

least-here : (y : Option ℕ) (age : ℕ) → AtMost (least y age) age
least-here none age = omega arith
least-here (some y) age = elim (Bool-cases (ltb age y)) [
  | inl l ↦ rw l (omega arith)
  | inr l ↦ rw l (ground (arith, l))
]

least-kept : (y : Option ℕ) (age n : ℕ) → AtMost y n → AtMost (least y age) n
least-kept none age n h = absurd h
least-kept (some y) age n h = elim (Bool-cases (ltb age y)) [
  | inl l ↦ rw l (ground (arith, l, h))
  | inr l ↦ rw l h
]

younger-some :
    (os : Os) (y : Option ℕ) (path : List ℕ) (stat : Stat)
    → os.lstat path ≡ some stat
    → younger os y path ≡ least y (os.now - stat.modified)
unfolding younger
younger-some os y path stat e = ground (arith, e)

younger-none :
    (os : Os) (y : Option ℕ) (path : List ℕ) → os.lstat path ≡ none → younger os y path ≡ y
unfolding younger
younger-none os y path e = ground (arith, e)

younger-here :
    (os : Os) (y : Option ℕ) (path : List ℕ) (stat : Stat)
    → os.lstat path ≡ some stat
    → AtMost (younger os y path) (os.now - stat.modified)
younger-here os y path stat e =
    subst (λ o. AtMost o (os.now - stat.modified)) (sym (younger-some os y path stat e))
      (least-here y (os.now - stat.modified))

younger-kept :
    (os : Os) (y : Option ℕ) (path : List ℕ) (n : ℕ) → AtMost y n → AtMost (younger os y path) n
younger-kept os y path n h = by_stat (os.lstat path) refl
  where
    by_stat : (o : Option Stat) → os.lstat path ≡ o → AtMost (younger os y path) n
    by_stat none e = subst (λ o. AtMost o n) (sym (younger-none os y path e)) h
    by_stat (some stat) e =
        subst (λ o. AtMost o n) (sym (younger-some os y path stat e))
          (least-kept y (os.now - stat.modified) n h)

AtMost-zero : (o : Option ℕ) (n : ℕ) → AtMost o n → youngest_or_zero o ≤ n
AtMost-zero none n h = absurd h
AtMost-zero (some y) n h = h

-- The three names of the profile's own state.
pub data IsProfileFile (root : List ℕ) (path : List ℕ) : Type 0 where
  a_lock : path ≡ lock_path root → IsProfileFile root path
  a_cookie : path ≡ cookie_path root → IsProfileFile root path
  a_socket : path ≡ socket_path root → IsProfileFile root path

age_at_most :
    (os : Os) (root path : List ℕ) (stat : Stat)
    → IsProfileFile root path
    → os.lstat path ≡ some stat
    → youngest_or_zero (
        younger os
          (younger os (younger os none (lock_path root)) (cookie_path root))
          (socket_path root))
      ≤ os.now - stat.modified
age_at_most os root path stat (a_lock p) e = AtMost-zero _ _ (
    younger-kept os _ _ _ (
      younger-kept os _ _ _
        (younger-here os none (lock_path root) stat (subst (λ q. os.lstat q ≡ some stat) p e))))
age_at_most os root path stat (a_cookie p) e = AtMost-zero _ _ (
    younger-kept os _ _ _
      (younger-here os _ (cookie_path root) stat (subst (λ q. os.lstat q ≡ some stat) p e)))
age_at_most os root path stat (a_socket p) e =
    AtMost-zero _ _
      (younger-here os _ (socket_path root) stat (subst (λ q. os.lstat q ≡ some stat) p e))

exists :
    (os : Os) (path : List ℕ) (stat : Stat) → os.lstat path ≡ some stat → path_exists os path ≡ true
unfolding path_exists
exists os path stat e = ap is_some e

-- The profile's owner is gone: no file of the three was changed within 10 s, and nobody listens on its
-- socket.
pub record IsGone (os : Os) (root : List ℕ) : Type 0 where
  pub settled :
      (path : List ℕ) (stat : Stat)
      → IsProfileFile root path
      → os.lstat path ≡ some stat
      → 10 ≤ os.now - stat.modified
  pub silent :
      path_exists os (socket_path root) ≡ true
      → unix_socket_answers os (target_or (os.readlink (socket_path root)) (socket_path root))
        ≡ false

old_enough :
    (root : List ℕ) (state : SingletonState) (age : ℕ)
    → is_dead root state ≡ true
    → state.age_seconds ≡ pos age
    → (state.lock_present || (state.cookie_present || state.socket_present)) ≡ true
    → 10 ≤ age
unfolding is_dead
old_enough root state age d a p = ground (arith, d, a, p)

any_present :
    (os : Os) (root path : List ℕ) (stat : Stat)
    → IsProfileFile root path
    → os.lstat path ≡ some stat
    → ((singleton_state os root).lock_present
        || ((singleton_state os root).cookie_present || (singleton_state os root).socket_present))
      ≡ true
unfolding singleton_state
any_present os root path stat (a_lock p) e = ground (arith, exists os path stat e, p)
any_present os root path stat (a_cookie p) e = ground (arith, exists os path stat e, p)
any_present os root path stat (a_socket p) e = ground (arith, exists os path stat e, p)

not_answered :
    (root : List ℕ) (state : SingletonState)
    → is_dead root state ≡ true
    → state.socket_present ≡ true
    → state.socket_answers ≡ false
unfolding is_dead owner_alive
not_answered root state d p = ground (arith, d, p)

silent_socket :
    (os : Os) (root : List ℕ)
    → (singleton_state os root).socket_answers ≡ false
    → path_exists os (socket_path root) ≡ true
    → unix_socket_answers os (target_or (os.readlink (socket_path root)) (socket_path root)) ≡ false
unfolding singleton_state
silent_socket os root a p = ground (arith, a, p)

same_presence :
    (os : Os) (root : List ℕ)
    → (singleton_state os root).socket_present ≡ path_exists os (socket_path root)
unfolding singleton_state
same_presence os root = refl

same_age :
    (os : Os) (root : List ℕ)
    → (singleton_state os root).age_seconds
      ≡ pos (
          youngest_or_zero (
            younger os
              (younger os (younger os none (lock_path root)) (cookie_path root))
              (socket_path root)))
unfolding singleton_state
same_age os root = refl

pub dead-IsGone :
    (os : Os) (root : List ℕ) → is_dead root (singleton_state os root) ≡ true → IsGone os root
dead-IsGone os root d = record {
  settled = λ path stat f e. omega (
    arith,
    old_enough root (singleton_state os root) _ d (same_age os root)
        (any_present os root path stat f e),
    age_at_most os root path stat f e,
  );
  silent = λ p.
      silent_socket os root
        (not_answered root (singleton_state os root) d (same_presence os root ∙ p)) p;
}
