-- ===== src/Review/Announce/Bulk.antt =====
-- A bulk decision as a sequence of single ones.
use mathlib.Core.Path.{subst}
use open_conferences.Shared.{
  ℕ, ◌+◌, ◌≡◌, refl, inl, inr, Option, none, some, List, [], ◌∷◌, arith, Option-cases, length,
  Result-cases,
}
use open_conferences.Store.{Db}
use open_conferences.Review.Announce.{
  BulkItem, BulkResult, latest_cycle, paper_in, decide_item, decide_items,
}
use open_conferences.Review.Decide.{DecisionInput, apply_decision}
use open_conferences.Review.Decide.Outcomes.{
  Decided, apply_decision-Decided, apply_decision_error_unchanged,
}
use open_conferences.Store.Rows.{Decision, Paper, ReviewRound}

abbrev pub item_input : BulkItem → Paper → DecisionInput
item_input item p = record {
  outcome = item.outcome;
  rationale = item.rationale;
  version = p.version;
}

module _ (now user conference_id : ℕ) where
  -- The steps of a bulk decision: an item fails and changes nothing, or is a decision that is made
  -- on the current version of its paper in the latest cycle of that paper.
  pub data Decides : Db → List BulkItem → BulkResult → Db → Type 0 where
    done : (db : Db) → Decides db [] (record { decisions = []; papers = []; failures = [] }) db
    fails :
        (db after : Db) (item : BulkItem) (items : List BulkItem) (rest : BulkResult)
        → Decides db items rest after
        → Decides db (item ∷ items) (record rest { failures = item.paper_id ∷ rest.failures }) after
    decides :
        (db next after : Db) (item : BulkItem) (items : List BulkItem) (rest : BulkResult)
        (cycle : ReviewRound) (p : Paper) (d : Decision)
        → latest_cycle conference_id item.paper_id db ≡ some cycle
        → paper_in conference_id item.paper_id db ≡ some p
        → Decided item.id now user conference_id item.paper_id cycle (item_input item p) db next
        → Decides next items rest after
        → Decides db
            (item ∷ items)
            (record rest { decisions = d ∷ rest.decisions; papers = p ∷ rest.papers })
            after

  -- What one item comes to.
  data ItemOutcome (item : BulkItem) (db : Db) : Option (Decision × Paper) × Db → Type 0 where
    item_fails : ItemOutcome item db (none, db)
    item_decides :
        (next : Db) (cycle : ReviewRound) (p : Paper) (d : Decision)
        → latest_cycle conference_id item.paper_id db ≡ some cycle
        → paper_in conference_id item.paper_id db ≡ some p
        → Decided item.id now user conference_id item.paper_id cycle (item_input item p) db next
        → ItemOutcome item db (some (d, p), next)

  decide_item-ItemOutcome :
      (item : BulkItem) (db : Db) → ItemOutcome item db (decide_item now user conference_id item db)
  unfolding decide_item
  decide_item-ItemOutcome item db =
      elim (Option-cases (latest_cycle conference_id item.paper_id db)) [
        | inl no_cycle ↦ subst (ItemOutcome item db) (ground arith) item_fails
        | inr (cycle, latest) ↦ elim (Option-cases (paper_in conference_id item.paper_id db)) [
          | inl no_paper ↦ subst (ItemOutcome item db) (ground arith) item_fails
          | inr (p, found) ↦
              elim (Result-cases
                (apply_decision item.id now user conference_id item.paper_id cycle
                  (item_input item p) db).0) [
                    | inl (e, refused) ↦
                        subst (ItemOutcome item db)
                          (ground (
                            arith,
                            apply_decision_error_unchanged item.id now user conference_id
                                item.paper_id cycle (item_input item p) db refused,
                          ))
                          item_fails
                    | inr ((d, early), made) ↦ subst (ItemOutcome item db) (ground arith) (
                        item_decides
                          (apply_decision item.id now user conference_id item.paper_id cycle
                            (item_input item p) db).1
                          cycle p d latest found
                          (apply_decision-Decided item.id now user conference_id item.paper_id cycle
                            (item_input item p) db (d, early) made))
                  ]
        ]
      ]

  -- The bulk decision after one item.
  abbrev after_item : BulkItem → List BulkItem → Option (Decision × Paper) × Db → BulkResult × Db
  after_item item items (made, db) =
      let (rest, after) = decide_items now user conference_id items db in
      (
        elim made [
          | none ↦ record rest { failures = item.paper_id ∷ rest.failures }
          | some (d, p) ↦ record rest { decisions = d ∷ rest.decisions; papers = p ∷ rest.papers }
        ],
        after,
      )

  after_item-Decides :
      (item : BulkItem) (items : List BulkItem) (db : Db) (made : Option (Decision × Paper) × Db)
      → ItemOutcome item db made
      → ((next : Db)
          → Decides next items
              (decide_items now user conference_id items next).0
              (decide_items now user conference_id items next).1)
      → Decides db (item ∷ items) (after_item item items made).0 (after_item item items made).1
  after_item-Decides item items db made item_fails rest =
      fails db (decide_items now user conference_id items db).1 item items
        (decide_items now user conference_id items db).0 (rest db)
  after_item-Decides item items db made (item_decides next cycle p d latest found decided) rest =
      decides db next (decide_items now user conference_id items next).1 item items
        (decide_items now user conference_id items next).0 cycle p d latest found decided
        (rest next)

  -- A bulk decision is a sequence of single decisions: from its first item to its last, each either
  -- fails and changes nothing, or is a decision that is made, as a single one is, on the current
  -- version of its paper in the latest cycle of that paper.
  pub decide_items-Decides :
      (items : List BulkItem) (db : Db)
      → Decides db items
          (decide_items now user conference_id items db).0
          (decide_items now user conference_id items db).1
  unfolding decide_items
  decide_items-Decides [] db = done db
  decide_items-Decides (item ∷ items) db =
      after_item-Decides item items db (decide_item now user conference_id item db)
        (decide_item-ItemOutcome item db) (λ next. decide_items-Decides items next)

  -- Every item of a bulk decision is answered, as made or as failed.
  pub decide_items-length :
      (items : List BulkItem) (db : Db)
      → length (decide_items now user conference_id items db).0.decisions
          + length (decide_items now user conference_id items db).0.failures
        ≡ length items
  unfolding decide_items
  decide_items-length [] db = refl
  decide_items-length (item ∷ items) db =
      ground (arith, decide_items-length items (decide_item now user conference_id item db).1)
