-- ===== src/Submission/Withdraw/Effects.antt =====
-- Who may withdraw a paper, and what a withdrawal does to the rows around it.
use open_conferences.Shared.{
  ==-refl, ℕ, ◌+◌, String, ◌≡◌, refl, ◌∙◌, ◌↔◌, ◌⊎◌, inl, inr, Bool, true, false, not, ◌&&◌, Option,
  none, some, List, [], ◌∷◌, map, arith, ◌==◌, if◌then◌else◌, Bool-cases, Option-cases, find,
  Result, ok, err,
}
use open_conferences.Store.{Db, publish, log_audit}
use open_conferences.Store.Rows.{
  submitted, under_review, decision_made, camera_ready, RoleKind, Paper, PaperStatus, withdrawn,
  Assignment, completed, declined, Registration, pending, awaiting_verification,
  additional_payment_required, cancelled,
}
use open_conferences.Store.Tables.{count_where, update_where}
use open_conferences.Store.Tables.Laws.{find-update_where}
use open_conferences.Submission.Queries.{is_paper_author, load_paper_for_mutation}
use open_conferences.Submission.Withdraw.{
  closed_paper, is_submitted, allowed_status, coordinator_may_withdraw, check_withdrawal,
  is_completed, declined_assignment, cancelled_registration, registration_of, withdrawable,
  withdraw_rows, send_all, announce, withdrawal_recipients, withdraw,
}
use open_conferences.Tenancy.Conferences.{load_conference}
use open_conferences.Tenancy.Roles.{can_coordinate_review}

-- The guards pass exactly for an author of a submitted paper, and for a coordinator who is no
-- author of a paper between its submission and its camera-ready version.
pub check_withdrawal_iff :
    (is_author coordinates : Bool) (status : PaperStatus)
    → (check_withdrawal is_author coordinates status ≡ ok tt) ↔ (
        ((is_author ≡ true) × (is_submitted status ≡ true))
        ⊎ ((is_author ≡ false) × (coordinates ≡ true) × (coordinator_may_withdraw status ≡ true)))
unfolding check_withdrawal
check_withdrawal_iff is_author coordinates status = (λ h. ground arith, λ h. ground arith)

-- The statuses in which an author, and another one who coordinates the reviews, may withdraw.
abbrev pub may_close : Bool → PaperStatus → Bool
may_close true submitted = true
may_close true _ = false
may_close false submitted = true
may_close false under_review = true
may_close false decision_made = true
may_close false camera_ready = true
may_close false _ = false

-- The row that is withdrawn: of the paper, at the given version, and in a status in which its caller
-- may withdraw it.
abbrev pub to_withdraw : ℕ → ℕ → Bool → Paper → Bool
to_withdraw paper_id version is_author p =
    p.id == paper_id && p.version == version && may_close is_author p.status

allowed_status-may_close :
    (is_author : Bool) (status : PaperStatus)
    → allowed_status is_author status ≡ may_close is_author status
unfolding allowed_status coordinator_may_withdraw
allowed_status-may_close is_author status = ground arith

count-to_withdraw :
    (paper_id version : ℕ) (is_author : Bool) (rows : List Paper)
    → count_where (withdrawable paper_id version is_author) rows
      ≡ count_where (to_withdraw paper_id version is_author) rows
count-to_withdraw paper_id version is_author [] = refl
count-to_withdraw paper_id version is_author (p ∷ rows) = ground (
  arith,
  allowed_status-may_close is_author p.status,
  count-to_withdraw paper_id version is_author rows,
)

update-to_withdraw :
    (paper_id version : ℕ) (is_author : Bool) (f : Paper → Paper) (rows : List Paper)
    → update_where (withdrawable paper_id version is_author) f rows
      ≡ update_where (to_withdraw paper_id version is_author) f rows
update-to_withdraw paper_id version is_author f [] = refl
update-to_withdraw paper_id version is_author f (p ∷ rows) = ground (
  arith,
  allowed_status-may_close is_author p.status,
  update-to_withdraw paper_id version is_author f rows,
)

open_to_caller :
    (is_author coordinates : Bool) (status : PaperStatus)
    → check_withdrawal is_author coordinates status ≡ ok tt
    → (may_close is_author status ≡ true) × ((is_author ≡ true) ⊎ (coordinates ≡ true))
unfolding check_withdrawal coordinator_may_withdraw
open_to_caller is_author coordinates status h = (ground arith, ground arith)

-- What an assignment becomes when a paper is withdrawn: one of the paper that is not completed is
-- declined, any other stays.
abbrev pub ended : ℕ → Assignment → Assignment
ended paper_id a =
    if a.paper_id == paper_id
    then elim a.status [ completed ↦ a | _ ↦ record a { status = declined } ]
    else a

assignments-ended :
    (paper_id : ℕ) (rows : List Assignment)
    → update_where
        (λ a. a.paper_id == paper_id && not (is_completed a.status))
        declined_assignment
        rows
      ≡ map (ended paper_id) rows
assignments-ended paper_id [] = refl
assignments-ended paper_id (a ∷ rows) = ground (arith, assignments-ended paper_id rows)

-- What a registration becomes when its paper is withdrawn: one that is not paid for is cancelled,
-- one that is paid, or closed already, stays.
abbrev pub after_withdrawal : Option Registration → Option Registration
after_withdrawal none = none
after_withdrawal (some r) =
    let closed = record r { status = cancelled; version = r.version + 1 } in
    some (elim r.status [
      | pending ↦ closed
      | awaiting_verification ↦ closed
      | additional_payment_required ↦ closed
      | _ ↦ r
    ])

-- What a withdrawal leaves behind.
pub record Withdrawn (conference_id paper_id version : ℕ) (is_author : Bool) (before after : Db)
    : Type 0 where
  pub one_paper : count_where (to_withdraw paper_id version is_author) before.papers ≡ 1
  pub papers_after :
      after.papers
      ≡ update_where
          (to_withdraw paper_id version is_author)
          (λ p. record p { status = withdrawn; version = p.version + 1 })
          before.papers
  pub assignments_after : after.assignments ≡ map (ended paper_id) before.assignments
  pub registration_after :
      registration_of conference_id paper_id after
      ≡ after_withdrawal (registration_of conference_id paper_id before)
  pub payments_after : after.payments ≡ before.payments

registration_cancelled :
    (conference_id paper_id : ℕ) (rows : List Registration) (r : Registration)
    → find (λ x. x.paper_id == paper_id && x.conference_id == conference_id) rows ≡ some r
    → find
        (λ x. x.paper_id == paper_id && x.conference_id == conference_id)
        (update_where (λ x. x.id == r.id) cancelled_registration rows)
      ≡ some (cancelled_registration r)
registration_cancelled conference_id paper_id rows r h =
    find-update_where (λ x. x.id == r.id) cancelled_registration
      (λ x. x.paper_id == paper_id && x.conference_id == conference_id) rows (λ x. refl)
    ∙ rw (h, ==-refl r.id)

withdraw_rows-assignments :
    (conference_id paper_id version : ℕ) (is_author : Bool) (db : Db)
    → (count_where (withdrawable paper_id version is_author) db.papers == 1) ≡ true
    → (withdraw_rows conference_id paper_id version is_author db).1.assignments
      ≡ update_where
          (λ a. a.paper_id == paper_id && not (is_completed a.status))
          declined_assignment
          db.assignments
unfolding withdraw_rows
withdraw_rows-assignments conference_id paper_id version is_author db one = ground arith

withdraw_rows_ok :
    (conference_id paper_id version : ℕ) (is_author : Bool) (db : Db) (p : Paper) (paid : Bool)
    → (withdraw_rows conference_id paper_id version is_author db).0 ≡ ok (some (p, paid))
    → Withdrawn conference_id paper_id version is_author db
        (withdraw_rows conference_id paper_id version is_author db).1
unfolding withdraw_rows
withdraw_rows_ok conference_id paper_id version is_author db p paid h =
    elim (Bool-cases (count_where (withdrawable paper_id version is_author) db.papers == 1)) [
      | inr none_hit ↦ ground arith
      | inl one ↦ elim (Option-cases (registration_of conference_id paper_id db)) [
        | inl e ↦ record {
          one_paper = ground (arith, count-to_withdraw paper_id version is_author db.papers);
          papers_after =
              ground (arith, update-to_withdraw paper_id version is_author closed_paper db.papers);
          assignments_after = over one;
          registration_after = ground arith;
          payments_after = ground arith;
        }
        | inr (r, e) ↦ record {
          one_paper = ground (arith, count-to_withdraw paper_id version is_author db.papers);
          papers_after =
              ground (arith, update-to_withdraw paper_id version is_author closed_paper db.papers);
          assignments_after = over one;
          registration_after =
              ground (arith, registration_cancelled conference_id paper_id db.registrations r e);
          payments_after = ground arith;
        }
      ]
    ]
  where
    over :
        (count_where (withdrawable paper_id version is_author) db.papers == 1) ≡ true
        → (withdraw_rows conference_id paper_id version is_author db).1.assignments
          ≡ map (ended paper_id) db.assignments
    over one =
        withdraw_rows-assignments conference_id paper_id version is_author db one
        ∙ assignments-ended paper_id db.assignments

-- The rows that the announcements leave alone.
record SameRows (before after : Db) : Type 0 where
  papers_kept : after.papers ≡ before.papers
  assignments_kept : after.assignments ≡ before.assignments
  registrations_kept : after.registrations ≡ before.registrations
  payments_kept : after.payments ≡ before.payments

send_all-SameRows :
    (paper_id : ℕ) (es : List String) (db : Db)
    → SameRows db (send_all paper_id es db).1 × ((send_all paper_id es db).0 ≡ ok tt)
unfolding send_all
send_all-SameRows paper_id [] db = ground arith
send_all-SameRows paper_id (e ∷ es) db = ground (
  arith,
  send_all-SameRows paper_id es
      (publish (record { template = "paper_withdrawn"; recipient = e; subject_id = paper_id })
        db).1,
)

announce-SameRows :
    (normalize : String → String) (user conference_id : ℕ) (p : Paper) (db : Db)
    → SameRows db (announce normalize user conference_id p db).1
      × ((announce normalize user conference_id p db).0 ≡ ok tt)
unfolding announce
announce-SameRows normalize user conference_id p db =
    let logged = (log_audit (some user) "paper.withdrawn" p.id db).1 in
    ground (
      arith,
      send_all-SameRows p.id (withdrawal_recipients normalize conference_id p logged) logged,
    )

Withdrawn-SameRows :
    (conference_id paper_id version : ℕ) (is_author : Bool) (before after last : Db)
    → Withdrawn conference_id paper_id version is_author before after
    → SameRows after last
    → Withdrawn conference_id paper_id version is_author before last
Withdrawn-SameRows conference_id paper_id version is_author before after last w s = record {
  one_paper = w.one_paper;
  papers_after = s.papers_kept ∙ w.papers_after;
  assignments_after = s.assignments_kept ∙ w.assignments_after;
  registration_after = rw s.registrations_kept w.registration_after;
  payments_after = s.payments_kept ∙ w.payments_after;
}

-- A withdrawal that returns was open to its caller: the paper was found in the conference, and it
-- was submitted if an author asked, or between its submission and its camera-ready version if one
-- who coordinates the reviews and is no author did. Then its one row of the given version was
-- withdrawn, its assignments that are not completed were declined and all others kept as they
-- were, its unpaid registration was cancelled and no payment was touched.
pub withdraw_ok :
    (normalize : String → String) (user conference_id paper_id version : ℕ) (roles : List RoleKind)
    (db : Db) {q : Paper}
    → (withdraw normalize user conference_id paper_id version roles db).0 ≡ ok q
    → (p : Paper) × (find (λ r. r.id == paper_id && r.conference_id == conference_id) db.papers
        ≡ some p)
      × (may_close (is_paper_author user p) p.status ≡ true)
      × ((is_paper_author user p ≡ true) ⊎ (can_coordinate_review roles ≡ true))
      × Withdrawn conference_id paper_id version
          (is_paper_author user p)
          db
          (withdraw normalize user conference_id paper_id version roles db).1
unfolding withdraw load_conference load_paper_for_mutation
withdraw_ok normalize user conference_id paper_id version roles db {q} h =
    elim (Option-cases
      (find (λ r. r.id == paper_id && r.conference_id == conference_id) db.papers)) [
        | inl gone ↦ ground arith
        | inr (p, found) ↦ (
          p,
          found,
          (open_to_caller (is_paper_author user p) (can_coordinate_review roles) p.status
              (ground arith)).0,
          (open_to_caller (is_paper_author user p) (can_coordinate_review roles) p.status
              (ground arith)).1,
          go p found (withdraw_rows conference_id paper_id version (is_paper_author user p) db).0
              refl,
        )
      ]
  where
    go :
        (p : Paper)
        → find (λ r. r.id == paper_id && r.conference_id == conference_id) db.papers ≡ some p
        → (r : Result (Option (Paper × Bool)))
        → (withdraw_rows conference_id paper_id version (is_paper_author user p) db).0 ≡ r
        → Withdrawn conference_id paper_id version
            (is_paper_author user p)
            db
            (withdraw normalize user conference_id paper_id version roles db).1
    go p found (err e) refused = ground arith
    go p found (ok none) changed = ground arith
    go p found (ok (some (f, b))) done =
        let rows = (withdraw_rows conference_id paper_id version (is_paper_author user p) db).1 in
        let (same, told) = announce-SameRows normalize user conference_id p rows in
        let last : (withdraw normalize user conference_id paper_id version roles db).1
            ≡ (announce normalize user conference_id p rows).1 =
          ground arith in
        rw last (
          Withdrawn-SameRows conference_id paper_id version (is_paper_author user p) db rows
            (announce normalize user conference_id p rows).1
            (withdraw_rows_ok conference_id paper_id version (is_paper_author user p) db f b done)
            same)
