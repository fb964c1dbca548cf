-- ===== src/Review/Announce.antt =====
-- The handlers of apps/api/src/review/decisions.service.ts around a decision: `makeDecision`,
-- `bulkDecide`, `notifyDecisions` and the release of decisions to authors.
pub mod Released
pub mod Made
pub mod Bulk
mod Tests
use text.Mathlib.Text.{◌==◌ as str_eq}
use open_conferences.Shared.{
  ℕ, String, Bool, false, not, ◌&&◌, ◌||◌, Option, none, some, List, [], ◌∷◌, ◌==◌, if◌then◌else◌,
  length, any, every, find, filter_by, Exception, bad_request, forbidden, not_found, ok, err,
  Action, pure, gets, or_raise, transaction, ◌>>=◌, ◌>>◌, modify, raise_if, when,
}
use open_conferences.Store.{Db, log_audit, publish}
use open_conferences.Billing.Capture.{round_number_of}
use open_conferences.Billing.Registrations.{open_registration}
use open_conferences.Review.Decide.{DecisionInput, is_accept, apply_decision}
use open_conferences.Review.Rounds.{load_round}
use open_conferences.Store.Rows.{Conference, Decision, Outcome, Paper, ReviewRound, RoleKind}
use open_conferences.Store.Tables.{count_where, update_where, latest_by}
use open_conferences.Submission.Queries.{is_closed}
use open_conferences.Tenancy.Conferences.{load_conference}
use open_conferences.Tenancy.Roles.{can_coordinate_review}

-- The decision of the paper's latest cycle.
abbrev pub latest_decision_of : ℕ → ℕ → Db → Option Decision
latest_decision_of conference_id paper_id db =
    latest_by (round_number_of db.rounds)
      (λ (d : Decision). d.paper_id == paper_id && d.conference_id == conference_id) db.decisions

abbrev pub paper_in : ℕ → ℕ → Db → Option Paper
paper_in conference_id paper_id db =
    find (λ (p : Paper). p.id == paper_id && p.conference_id == conference_id) db.papers

-- The current decision of an active paper.
abbrev pub is_releasable : ℕ → Db → Decision → Bool
is_releasable conference_id db d =
    elim (latest_decision_of conference_id d.paper_id db) [ none ↦ false | some l ↦ l.id == d.id ]
    && elim (paper_in conference_id d.paper_id db) [
      | none ↦ false
      | some p ↦ not (is_closed p.status)
    ]

abbrev pub is_one_of : ℕ → List Decision → Decision → Bool
is_one_of conference_id ds x =
    any (λ (d : Decision). d.id == x.id) ds && x.conference_id == conference_id

abbrev pub notified : ℕ → Decision → Decision
notified now d = record d { notified_at = some now }

-- The address of the corresponding author of the paper among those that were loaded: `none` where
-- the paper was not loaded.
abbrev pub address_for : List Paper → Decision → Option String
address_for papers d = elim (find (λ (p : Paper). p.id == d.paper_id) papers) [
  | none ↦ none
  | some p ↦ elim (find (λ a. a.is_corresponding) p.authorships) [
    | none ↦ some ""
    | some a ↦ some a.email
  ]
]

-- The mails, published in the same transaction.
unfoldable pub tell_decisions : List Paper → List Decision → Action Db (Unit {0})
tell_decisions papers [] db = (ok tt, db)
tell_decisions papers (d ∷ ds) db = elim (address_for papers d) [
  | none ↦ tell_decisions papers ds db
  | some email ↦
      if str_eq email ""
      then (err (Exception.conflict "Paper has no corresponding author email"), db)
      else tell_decisions papers ds
          (publish (record { template = "decision.notified"; recipient = email; subject_id = d.id })
            db).1
]

-- The transaction of `notifyDecisionAuthors`.
unfoldable pub release_decisions : ℕ → ℕ → List Paper → List Decision → Action Db (Unit {0})
release_decisions now conference_id papers decisions = transaction (do
  current ← gets (λ db. every (is_releasable conference_id db) decisions)
  raise_if (not current)
      (Exception.conflict "Only the current decision of an active paper can be released")
  hit ← gets (λ db. count_where (is_one_of conference_id decisions) db.decisions)
  modify (λ db. record db {
    decisions = update_where (is_one_of conference_id decisions) (notified now) db.decisions;
  })
  raise_if (not (hit == length decisions))
      (Exception.conflict "Could not release all decisions to authors")
  tell_decisions papers decisions)

-- `notifyDecisionAuthors`; the conference is that of the first paper.
unfoldable pub notify_decision_authors : ℕ → List Paper → List Decision → Action Db (Unit {0})
notify_decision_authors now [] decisions db = (ok tt, db)
notify_decision_authors now (p ∷ papers) [] db = (ok tt, db)
notify_decision_authors now (p ∷ papers) (d ∷ decisions) db =
    release_decisions now p.conference_id (p ∷ papers) (d ∷ decisions) db

-- `if (outcome === 'ACCEPT') await openRegistration(...)`, with the id that is generated for it.
unfoldable pub open_if_accepted : (ℕ → ℕ) → ℕ → ℕ → Conference → Decision → Action Db (Unit {0})
open_if_accepted fresh now user c d = when (is_accept d.outcome) (
    open_registration (fresh d.paper_id) now c.organization_id c.id d.paper_id (some user)
    >> pure tt)

unfoldable pub open_accepted : (ℕ → ℕ) → ℕ → ℕ → Conference → List Decision → Action Db (Unit {0})
open_accepted fresh now user c [] db = (ok tt, db)
open_accepted fresh now user c (d ∷ ds) db =
    let (r, db') = open_if_accepted fresh now user c d db in
    elim r [ err e ↦ (err e, db') | ok _ ↦ open_accepted fresh now user c ds db' ]

-- `MakeDecisionInput`
pub record MakeInput : Type 0 where
  pub round_id : ℕ
  pub decision : DecisionInput
  pub notify : Bool

unfoldable pub make_decision :
    (ℕ → ℕ) → ℕ → ℕ → ℕ → ℕ → ℕ → MakeInput → List RoleKind → Action Db Decision
make_decision fresh id now user conference_id paper_id input roles = do
  raise_if (not (can_coordinate_review roles))
      (forbidden "Insufficient permissions to make decisions")
  c ← load_conference conference_id
  round ← load_round conference_id input.round_id
  loaded ← gets (paper_in conference_id paper_id)
  made ← apply_decision id now user conference_id paper_id round input.decision
  p ← or_raise loaded (not_found "Paper not found")
  log_audit (some user) "decision.made" (made.0).id
  open_if_accepted fresh now user c made.0
  when input.notify (notify_decision_authors now (p ∷ []) (made.0 ∷ []))
  pure made.0

-- An item of a bulk decision, with the id that is generated for its decision.
pub record BulkItem : Type 0 where
  pub id : ℕ
  pub paper_id : ℕ
  pub outcome : Outcome
  pub rationale : Option String

-- The decisions that were made with their papers, and the papers that failed.
pub record BulkResult : Type 0 where
  pub decisions : List Decision
  pub papers : List Paper
  pub failures : List ℕ

abbrev pub latest_cycle : ℕ → ℕ → Db → Option ReviewRound
latest_cycle conference_id paper_id db =
    latest_by (λ (r : ReviewRound). r.round_number)
      (λ r. r.conference_id == conference_id && r.paper_id == paper_id) db.rounds

-- One item: `none` where it fails, whatever was thrown.
unfoldable pub decide_item : ℕ → ℕ → ℕ → BulkItem → Db → Option (Decision × Paper) × Db
decide_item now user conference_id item db = elim (latest_cycle conference_id item.paper_id db) [
  | none ↦ (none, db)
  | some cycle ↦ elim (paper_in conference_id item.paper_id db) [
    | none ↦ (none, db)
    | some p ↦
        let (r, db') =
          apply_decision item.id now user conference_id item.paper_id cycle
            (record { outcome = item.outcome; rationale = item.rationale; version = p.version })
            db in
        elim r [ err e ↦ (none, db') | ok made ↦ (some (made.0, p), db') ]
  ]
]

-- The loop over the items.
unfoldable pub decide_items : ℕ → ℕ → ℕ → List BulkItem → Db → BulkResult × Db
decide_items now user conference_id [] db =
    (record { decisions = []; papers = []; failures = [] }, db)
decide_items now user conference_id (item ∷ items) db =
    let (made, db') = decide_item now user conference_id item db in
    let (rest, db'') = decide_items now user conference_id items db' in
    (
      elim made [
        | none ↦ record rest { failures = item.paper_id ∷ rest.failures }
        | some (d, p) ↦ record rest { decisions = d ∷ rest.decisions; papers = p ∷ rest.papers }
      ],
      db'',
    )

abbrev pub repeats : List BulkItem → Bool
repeats [] = false
repeats (item ∷ items) = any (λ (x : BulkItem). x.paper_id == item.paper_id) items || repeats items

abbrev pub log_decisions : ℕ → List Decision → Action Db (Unit {0})
log_decisions user [] db = (ok tt, db)
log_decisions user (d ∷ ds) db =
    log_decisions user ds (log_audit (some user) "decision.made" d.id db).1

unfoldable pub bulk_decide :
    (ℕ → ℕ) → ℕ → ℕ → ℕ → List BulkItem → Bool → List RoleKind → Action Db BulkResult
bulk_decide fresh now user conference_id items notify roles = do
  raise_if (not (can_coordinate_review roles))
      (forbidden "Insufficient permissions to make decisions")
  c ← load_conference conference_id
  raise_if (repeats items) (bad_request "Duplicate paper IDs in bulk decision request")
  result ← (λ db. let (r, db') = decide_items now user conference_id items db in (ok r, db'))
  log_decisions user result.decisions
  open_accepted fresh now user c result.decisions
  when notify (notify_decision_authors now result.papers result.decisions)
  pure result

-- The decisions of the round, of the given papers where any are given.
abbrev pub is_to_notify : ℕ → ℕ → List ℕ → Decision → Bool
is_to_notify conference_id round_id paper_ids d =
    d.conference_id == conference_id
    && d.round_id == round_id
    && (length paper_ids == 0 || any (λ k. k == d.paper_id) paper_ids)

abbrev pub papers_of : List Decision → Db → List Paper
papers_of [] db = []
papers_of (d ∷ ds) db = elim (find (λ (p : Paper). p.id == d.paper_id) db.papers) [
  | none ↦ papers_of ds db
  | some p ↦ p ∷ papers_of ds db
]

unfoldable pub notify_decisions : (ℕ → ℕ) → ℕ → ℕ → ℕ → ℕ → List ℕ → List RoleKind → Action Db ℕ
notify_decisions fresh now user conference_id round_id paper_ids roles = do
  raise_if (not (can_coordinate_review roles))
      (forbidden "Insufficient permissions to notify decisions")
  c ← load_conference conference_id
  load_round conference_id round_id
  decisions ← gets (λ db. filter_by (is_to_notify conference_id round_id paper_ids) db.decisions)
  raise_if (length decisions == 0) (not_found "No decisions found to notify")
  papers ← gets (papers_of decisions)
  open_accepted fresh now user c decisions
  notify_decision_authors now papers decisions
  pure (length decisions)
