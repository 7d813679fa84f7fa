-- ===== src/CrashHandler/Once.antt =====
-- At most one report is written, and from its beginning.
use Prim.Native.String.{String}
use centroid_x.Common.{
  ℕ, ◌≡◌, ◌≢◌, refl, sym, ap, ◌∙◌, inl, inr, true, false, List, [], ◌∷◌, ◌++◌, append_assoc, Option,
  none, some, ◌==◌, arith, Bool-cases,
}
use centroid_x.CrashHandler.{
  Fault, kind_of, Part, parts, Thread, running, reporting, dying, Process, start, move,
  report_and_die, advance,
}
use centroid_x.CrashHandler.Steps.{Step, faulted, advanced, Reached, here, next}

abbrev rest_of : Thread → Option (List Part)
rest_of (reporting rest code) = some rest
rest_of _ = none

none-ne-some : (parts : List Part) → none ≢ some parts
none-ne-some parts e = cc

-- Nothing was written and nobody reports, before the latch is taken; and after it, what was written is
-- the beginning of the report of one kind by one thread, which has the rest to write if it still does.
pub record IsOnce (p : Process) : Type 0 where
  pub kind : String
  pub reporter : ℕ
  pub left : List Part
  pub begun : p.written ++ left ≡ parts kind
  pub before : p.entered ≡ false → p.written ≡ []
  pub idle : (t : ℕ) → p.entered ≡ false → rest_of (p.threads t) ≡ none
  pub alone :
      (t : ℕ) (rest : List Part)
      → rest_of (p.threads t) ≡ some rest
      → (t ≡ reporter) × (rest ≡ left)

start-IsOnce : IsOnce start
start-IsOnce = record {
  kind = "";
  reporter = 0;
  left = parts "";
  begun = refl;
  before = λ e. refl;
  idle = λ t e. refl;
  alone = λ t rest e. cc;
}

module _ (t : ℕ) (fault : Fault) (p : Process) (s : IsOnce p) where
  first-IsOnce : p.entered ≡ false → IsOnce (report_and_die t fault p)
  unfolding report_and_die
  first-IsOnce e = record {
    kind = kind_of fault;
    reporter = t;
    left = parts (kind_of fault);
    begun = ap (λ (w : List Part). w ++ parts (kind_of fault)) (s.before e);
    before = λ f. cc;
    idle = λ u f. cc;
    alone = λ u rest f. ground (arith, e, f, s.idle u);
  }

  later-IsOnce : p.entered ≡ true → IsOnce (report_and_die t fault p)
  unfolding report_and_die
  later-IsOnce e = record {
    kind = s.kind;
    reporter = s.reporter;
    left = s.left;
    begun = s.begun;
    before = λ f. cc;
    idle = λ u f. cc;
    alone = λ u rest f. ground (arith, e, f, s.alone u rest);
  }

module _ (t : ℕ) (p : Process) (s : IsOnce p) where
  wrote-IsOnce :
      (part : Part) (rest : List Part) (code : ℕ)
      → p.threads t ≡ reporting (part ∷ rest) code
      → IsOnce (record p {
        written = p.written ++ (part ∷ []);
        threads = move p.threads t (reporting rest code);
      })
  wrote-IsOnce part rest code e =
      let (u, l) = s.alone t (part ∷ rest) (ap rest_of e) in
      record {
        kind = s.kind;
        reporter = s.reporter;
        left = rest;
        begun =
            append_assoc p.written (part ∷ []) rest
            ∙ (ap (λ (r : List Part). p.written ++ r) l ∙ s.begun);
        before = λ f. absurd (busy f);
        idle = λ v f. absurd (busy f);
        alone = λ v r f. elim (Bool-cases (t == v)) [
          | inl q ↦ ground (arith, q, f, u)
          | inr q ↦
              let g : rest_of (p.threads v) ≡ some r = ground (arith, q, f) in
              let (w, k) = s.alone v r g in absurd (apart v q (w ∙ sym u))
        ];
      }
    where
      busy : p.entered ≡ false → ⊥
      busy f = none-ne-some (part ∷ rest) (sym (s.idle t f) ∙ ap rest_of e)

      apart : (v : ℕ) → (t == v) ≡ false → v ≡ t → ⊥
      apart v q e = ground (arith, q, e)

  moved-IsOnce : (code : ℕ) → IsOnce (record p { threads = move p.threads t (dying code) })
  moved-IsOnce code = record {
    kind = s.kind;
    reporter = s.reporter;
    left = s.left;
    begun = s.begun;
    before = s.before;
    idle = λ v f. ground (arith, s.idle v f);
    alone = λ v r f. ground (arith, f, s.alone v r);
  }

  advance-IsOnce : IsOnce (advance t p)
  unfolding advance
  advance-IsOnce = by_cases (p.threads t) refl
    where
      next_of : Thread → Process
      next_of u = elim u [
        | running ↦ p
        | reporting parts code ↦ elim parts [
          | [] ↦ record p { threads = move p.threads t (dying code) }
          | part ∷ rest ↦ record p {
            written = p.written ++ (part ∷ []);
            threads = move p.threads t (reporting rest code);
          }
        ]
        | dying code ↦ record p { ended = some code }
      ]

      by_cases : (u : Thread) → p.threads t ≡ u → IsOnce (next_of u)
      by_cases running e = s
      by_cases (reporting [] code) e = moved-IsOnce code
      by_cases (reporting (part ∷ rest) code) e = wrote-IsOnce part rest code e
      by_cases (dying code) e = record {
        kind = s.kind;
        reporter = s.reporter;
        left = s.left;
        begun = s.begun;
        before = s.before;
        idle = s.idle;
        alone = s.alone;
      }

Step-IsOnce : (p q : Process) → Step p q → IsOnce p → IsOnce q
Step-IsOnce _ _ (faulted t fault p e) s = elim (Bool-cases p.entered) [
  | inl b ↦ later-IsOnce t fault p s b
  | inr b ↦ first-IsOnce t fault p s b
]
Step-IsOnce _ _ (advanced t p e) s = advance-IsOnce t p s

Reached-IsOnce : (p : Process) → Reached p → IsOnce p
Reached-IsOnce _ here = start-IsOnce
Reached-IsOnce _ (next {p} {q} r step) = Step-IsOnce p q step (Reached-IsOnce p r)

-- In every order of faults and of the statements of their handlers, what was written is the beginning
-- of the four parts of one report, all of one kind and in their order: no part is written twice, and
-- no two reports interleave.
pub Reached-begins :
    (p : Process)
    → Reached p
    → (kind : String) × (left : List Part) × (p.written ++ left ≡ parts kind)
Reached-begins p r = let s = Reached-IsOnce p r in (s.kind, s.left, s.begun)
