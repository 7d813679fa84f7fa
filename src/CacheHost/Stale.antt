-- ===== src/CacheHost/Stale.antt =====
-- What the socket directories that are found were seen to be.
use centroid_x.Common.{
  ℕ, ◌≤◌, ◌≡◌, refl, inl, inr, Bool, true, false, List, [], ◌∷◌, Option, none, some, if◌then◌else◌,
  arith,
}
use centroid_x.CString.{codes}
use centroid_x.CefCache.{strip_trailing_separators}
use centroid_x.CefCache.Sweep.{SocketDir}
use centroid_x.CefCache.Planned.{IsAmong, IsAbandoned}
use centroid_x.CacheHost.{Os, seconds_since_modified, under}
use centroid_x.CacheHost.Sockets.{unix_socket_answers}
use centroid_x.CacheHost.Directories.{
  is_directory, is_candidate, candidate_of, collect, find_socket_dirs,
}

-- A directory of the temp directory in which nobody listens and that was not changed for 300 s; it is
-- a directory itself and no link to one.
pub record IsStale (os : Os) (path : List ℕ) : Type 0 where
  pub found_as : List ℕ
  pub same : path ≡ strip_trailing_separators found_as
  pub real : is_directory (os.lstat found_as) ≡ true
  pub old : 300 ≤ seconds_since_modified os found_as
  pub unanswered : unix_socket_answers os (under found_as (codes "SingletonSocket")) ≡ false

candidate-IsStale :
    (os : Os) (temp_dir name path : List ℕ)
    → is_candidate os temp_dir name ≡ true
    → IsAbandoned (candidate_of os (under temp_dir name))
    → path ≡ strip_trailing_separators (candidate_of os (under temp_dir name)).path
    → IsStale os path
unfolding is_candidate candidate_of
candidate-IsStale os temp_dir name path c (a, y) e = record {
  found_as = under temp_dir name;
  same = e;
  real = ground (arith, c);
  old = ground (arith, y);
  unanswered = ground (arith, a, y);
}

collect-IsStale :
    (os : Os) (temp_dir : List ℕ) (names : List (List ℕ)) (path : List ℕ)
    → IsAmong path (collect os temp_dir names)
    → IsStale os path
unfolding collect
collect-IsStale os temp_dir [] path h = absurd h
collect-IsStale os temp_dir (name ∷ names) path h =
    pick (is_candidate os temp_dir name) refl (collect-IsStale os temp_dir names path) h
  where
    rest : List SocketDir
    rest = collect os temp_dir names

    pick :
        (b : Bool)
        → is_candidate os temp_dir name ≡ b
        → (IsAmong path rest → IsStale os path)
        → IsAmong path (if b then candidate_of os (under temp_dir name) ∷ rest else rest)
        → IsStale os path
    pick false c ih k = ih k
    pick true c ih (inl (a, e)) = candidate-IsStale os temp_dir name path c a e
    pick true c ih (inr k) = ih k

pub found-IsStale :
    (os : Os) (temp_dir path : List ℕ)
    → IsAmong path (find_socket_dirs os temp_dir)
    → IsStale os path
unfolding find_socket_dirs
found-IsStale os temp_dir path h = by_listing (os.listing temp_dir) h
  where
    by_listing :
        (l : Option (List (List ℕ)))
        → IsAmong path
            (elim l as (λ _. List SocketDir) [ none ↦ [] | some names ↦ collect os temp_dir names ])
        → IsStale os path
    by_listing none k = absurd k
    by_listing (some names) k = collect-IsStale os temp_dir names path k
