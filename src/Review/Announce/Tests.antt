-- ===== src/Review/Announce/Tests.antt =====
-- The theorems on the handlers around a decision, applied to one paper.
use open_conferences.Samples.{conference_db, acceptance}
use open_conferences.Shared.{◌≡◌, refl, true, false, none, List, [], ◌∷◌}
use open_conferences.Review.Announce.{
  open_if_accepted, MakeInput, make_decision, BulkItem, decide_items,
}
use open_conferences.Review.Announce.Bulk.{Decides, decide_items-Decides}
use open_conferences.Review.Announce.Made.{Makes, make_decision_ok}
use open_conferences.Review.Decide.{apply_decision, check_decision}
use open_conferences.Review.Rounds.{load_round}
use open_conferences.Store.Rows.{Decision, chair, reject, accept}
use open_conferences.Tenancy.Conferences.{load_conference}
use open_conferences.Tenancy.Roles.{can_coordinate_review}

abbrev rejection : MakeInput
rejection = record {
  round_id = 30;
  decision = record { outcome = reject; rationale = none; version = 4 };
  notify = false;
}

abbrev rejected : Decision
rejected = record acceptance {
  id = 99;
  outcome = reject;
  decided_by_id = 22;
  created_at = 180;
  notified_at = none;
}

make_decision_ok_example :
    (can_coordinate_review (chair ∷ []) ≡ true)
    × Makes
        (λ k. k)
        99
        180
        22
        1
        6
        rejection
        conference_db
        (make_decision (λ k. k) 99 180 22 1 6 rejection (chair ∷ []) conference_db).1
        rejected
unfolding make_decision can_coordinate_review load_conference load_round apply_decision
    check_decision open_if_accepted
make_decision_ok_example =
    make_decision_ok (λ k. k) 99 180 22 1 6 rejection (chair ∷ []) conference_db rejected refl

-- One paper has a cycle, the other has none.
abbrev two_items : List BulkItem
two_items =
    record { id = 97; paper_id = 6; outcome = accept; rationale = none }
    ∷ record { id = 98; paper_id = 5; outcome = reject; rationale = none }
    ∷ []

decide_items-Decides_example :
    Decides 180 22 1 conference_db two_items
      (decide_items 180 22 1 two_items conference_db).0
      (decide_items 180 22 1 two_items conference_db).1
decide_items-Decides_example = decide_items-Decides 180 22 1 two_items conference_db
