-- ===== src/CacheHost/Sockets.antt =====
-- UnixSocketAnswers of cef_cache_paths_host.cc: whether somebody listens on a socket.
use centroid_x.Common.{
  ℕ, ◌≤◌, ◌≡◌, ◌≢◌, refl, ◌↔◌, ◌⊎◌, inl, inr, Bool, true, false, List, [], ◌∷◌, none, some, leb,
  ◌==◌, length, if◌then◌else◌, arith, Bool-cases,
}
use centroid_x.CefCache.{is_empty}
use centroid_x.CacheHost.{
  Poll, ready, timed_out, poll_failed, Attempt, no_socket, connected, would_block, refused,
  in_progress, Os,
}

unfoldable pub polled : Poll → Bool
polled (ready none) = false
polled (ready (some code)) = code == 0
polled timed_out = true
polled poll_failed = false

unfoldable pub attempted : Attempt → Bool
unfolding polled
attempted no_socket = false
attempted connected = true
attempted would_block = true
attempted refused = false
attempted (in_progress poll) = polled poll

unfoldable pub unix_socket_answers : Os → List ℕ → Bool
unfolding attempted
unix_socket_answers os path =
    if is_empty path
    then false
    else if leb os.sun_path (length path)
    then false
    else attempted (os.connect path)

-- The outcomes that say that nobody listens.
abbrev pub IsRefusal : Attempt → Type 0
IsRefusal refused = Unit {0}
IsRefusal (in_progress (ready (some code))) = code ≢ 0
IsRefusal _ = ⊥

-- The outcomes in which the host could not tell.
abbrev pub IsUntold : Attempt → Type 0
IsUntold no_socket = Unit {0}
IsUntold (in_progress (ready none)) = Unit {0}
IsUntold (in_progress poll_failed) = Unit {0}
IsUntold _ = ⊥

attempted_iff : (a : Attempt) → (attempted a ≡ false) ↔ (IsRefusal a ⊎ IsUntold a)
unfolding attempted polled
attempted_iff no_socket = (λ e. inr tt, λ e. refl)
attempted_iff connected = (λ e. absurd (cc), λ e. elim e [ inl x ↦ absurd x | inr x ↦ absurd x ])
attempted_iff would_block = (λ e. absurd (cc), λ e. elim e [ inl x ↦ absurd x | inr x ↦ absurd x ])
attempted_iff refused = (λ e. inl tt, λ e. refl)
attempted_iff (in_progress (ready none)) = (λ e. inr tt, λ e. refl)
attempted_iff (in_progress (ready (some code))) =
    (λ e. inl (ground (arith, e)), λ e. elim e [ inl x ↦ ground (arith, x) | inr x ↦ absurd x ])
attempted_iff (in_progress timed_out) =
    (λ e. absurd (cc), λ e. elim e [ inl x ↦ absurd x | inr x ↦ absurd x ])
attempted_iff (in_progress poll_failed) = (λ e. inr tt, λ e. refl)

-- A socket is taken for one that nobody listens on exactly when its path is empty, or too long to be
-- bound, or the connection was refused or failed, or the host could not tell: it gave no socket, or
-- poll or getsockopt failed.
pub unix_socket_answers_iff :
    (os : Os) (path : List ℕ)
    → (unix_socket_answers os path ≡ false) ↔ (
        (path ≡ [])
        ⊎ ((os.sun_path ≤ length path)
            ⊎ (IsRefusal (os.connect path) ⊎ IsUntold (os.connect path))))
unfolding unix_socket_answers
unix_socket_answers_iff os [] = (λ e. inl refl, λ e. refl)
unix_socket_answers_iff os (c ∷ cs) = (
  λ e. elim (Bool-cases (leb os.sun_path (length (c ∷ cs)))) [
    | inl l ↦ inr (inl (ground (arith, l)))
    | inr l ↦ inr (inr ((attempted_iff (os.connect (c ∷ cs))).0 (ground (arith, e, l))))
  ],
  λ e. elim e [
    | inl x ↦ absurd (cc)
    | inr x ↦ elim x [
      | inl l ↦ ground (arith, l)
      | inr y ↦
          let shut : attempted (os.connect (c ∷ cs)) ≡ false =
            (attempted_iff (os.connect (c ∷ cs))).1 y in
          ground (arith, shut)
    ]
  ],
)
