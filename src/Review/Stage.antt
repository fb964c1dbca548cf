-- ===== src/Review/Stage.antt =====
-- apps/api/src/review/review-stage.ts.
use open_conferences.Shared.{
  ℕ, Bool, true, false, not, Option, none, some, ltb, leb, if◌then◌else◌, is_some,
}
use open_conferences.Store.Rows.{Outcome, minor_revision, major_revision}

pub data ReviewStage : Type 0 where
  in_review decided revision_requested feedback_released : ReviewStage

-- `REVISION_OUTCOMES.includes(outcome)`
abbrev pub is_revision : Outcome → Bool
is_revision minor_revision = true
is_revision major_revision = true
is_revision _ = false

unfoldable pub derive_review_stage : Option ℕ → Option Outcome → Bool → ReviewStage
derive_review_stage released outcome true = in_review
derive_review_stage released none false = if is_some released then feedback_released else in_review
derive_review_stage released (some o) false = if is_revision o then revision_requested else decided

-- A minimum that is missing or not positive is 1.
unfoldable pub minimum_reviews_from_config : Option ℕ → ℕ
minimum_reviews_from_config none = 1
minimum_reviews_from_config (some n) = if ltb 0 n then n else 1

-- Whether `reviewCountWarning` has a warning.
unfoldable pub lacks_reviews : ℕ → ℕ → Bool
lacks_reviews submitted_count minimum = not (leb minimum submitted_count)
