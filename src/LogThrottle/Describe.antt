-- ===== src/LogThrottle/Describe.antt =====
-- LogThrottle::DescribeSuppression, of log_throttle.cpp.
use Prim.Native.String.{String, ◌++◌}
use text.Mathlib.TextLemmas.{cons≢nil}
use centroid_x.Common.{
  ◌≡◌, refl, ◌≢◌, ◌↔◌, true, false, inl, inr, sym, ◌∙◌, if◌then◌else◌, ◌==◌, ==_iff, Bool-cases,
}
use centroid_x.Formats.{Formats, append-ne-empty}
use centroid_x.LogThrottle.{Decision}

abbrev opening : String
opening = " (+"

module _ (f : Formats) where
  unfoldable pub describe_suppression : Decision → String
  describe_suppression d =
      if d.suppressed == 0
      then ""
      else opening
        ++ (f.to_string d.suppressed ++ (" suppressed, " ++ (f.to_string d.total ++ " total)")))

  true-ne-false : true ≢ false
  true-ne-false h = cc

  -- A line tells of swallowed ones just when there are some: the text is empty when no occurrence was
  -- suppressed, and only then, whatever the formatting functions return.
  pub describe_suppression-empty :
      (d : Decision) → (describe_suppression d ≡ "") ↔ (d.suppressed ≡ 0)
  unfolding describe_suppression
  describe_suppression-empty d = elim (Bool-cases (d.suppressed == 0)) [
    | inl e ↦ rw e (λ _. (==_iff d.suppressed 0).0 e, λ _. refl)
    | inr e ↦ rw e (
      λ h. absurd (append-ne-empty opening _ (λ q. cons≢nil q) h),
      λ h. absurd (true-ne-false (sym ((==_iff d.suppressed 0).1 h) ∙ e)),
    )
  ]
