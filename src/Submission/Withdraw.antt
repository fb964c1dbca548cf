-- ===== src/Submission/Withdraw.antt =====
-- `PapersService.withdraw` and `deleteDraft`.
pub mod Effects
pub mod Recipients
use text.Mathlib.Text.{◌==◌ as str_eq}
use open_conferences.Shared.{
  false, true, ℕ, ◌+◌, String, Bool, not, ◌&&◌, Option, none, some, List, [], ◌∷◌, ◌++◌, map, ◌==◌,
  if◌then◌else◌, is_id, any, find, filter_by, Exception, forbidden, Result, ok, Action, pure, gets,
  or_raise, lift, ◌>>=◌, ◌>>◌, modify, raise_if, first_error,
}
use open_conferences.Store.{Db, log_audit, publish}
use open_conferences.Store.Rows.{
  RoleKind, organizer, chair, org_admin, User, Membership, Paper, PaperStatus, draft, submitted,
  under_review, decision_made, camera_ready, withdrawn, Assignment, AssignmentStatus, completed,
  declined, Registration, RegistrationStatus, pending, awaiting_verification,
  additional_payment_required, cancelled, paid,
}
use open_conferences.Store.Tables.{count_where, update_where, delete_where}
use open_conferences.Submission.Queries.{
  is_draft, is_closed, is_paper_author, load_paper_for_mutation,
}
use open_conferences.Tenancy.Conferences.{load_conference}
use open_conferences.Tenancy.Roles.{includes, can_coordinate_review}

abbrev pub is_submitted : PaperStatus → Bool
is_submitted submitted = true
is_submitted _ = false

-- `coordinatorMayWithdraw`
unfoldable pub coordinator_may_withdraw : PaperStatus → Bool
coordinator_may_withdraw submitted = true
coordinator_may_withdraw under_review = true
coordinator_may_withdraw decision_made = true
coordinator_may_withdraw camera_ready = true
coordinator_may_withdraw _ = false

-- The guards, for an author of the paper or for someone who coordinates the reviews.
unfoldable pub check_withdrawal : Bool → Bool → PaperStatus → Result (Unit {0})
unfolding coordinator_may_withdraw
check_withdrawal is_author coordinates status = first_error (
    (
      not is_author && not coordinates,
      forbidden "Only an author or organizer can withdraw this paper",
    )
    ∷ (
      is_author && is_draft status,
      Exception.conflict "Delete the draft instead of withdrawing it",
    )
    ∷ (is_author && is_closed status, Exception.conflict "This paper is already withdrawn")
    ∷ (
      is_author && not (is_submitted status),
      forbidden "Contact the organizers to withdraw this paper",
    )
    ∷ (
      coordinates && not is_author && not (coordinator_may_withdraw status),
      Exception.conflict "This paper cannot be withdrawn",
    )
    ∷ [])

-- `allowedStatuses`
unfoldable pub allowed_status : Bool → PaperStatus → Bool
unfolding coordinator_may_withdraw
allowed_status is_author status =
    if is_author then is_submitted status else coordinator_may_withdraw status

abbrev pub closed_paper : Paper → Paper
closed_paper p = record p { status = withdrawn; version = p.version + 1 }

abbrev pub is_completed : AssignmentStatus → Bool
is_completed completed = true
is_completed _ = false

abbrev pub declined_assignment : Assignment → Assignment
declined_assignment a = record a { status = declined }

abbrev pub is_unpaid : RegistrationStatus → Bool
is_unpaid pending = true
is_unpaid awaiting_verification = true
is_unpaid additional_payment_required = true
is_unpaid _ = false

abbrev pub is_paid : RegistrationStatus → Bool
is_paid paid = true
is_paid _ = false

abbrev pub cancelled_registration : Registration → Registration
cancelled_registration r = record r { status = cancelled; version = r.version + 1 }

abbrev pub registration_of : ℕ → ℕ → Db → Option Registration
registration_of conference_id paper_id db =
    find (λ r. r.paper_id == paper_id && r.conference_id == conference_id) db.registrations

abbrev pub is_paid_registration : Option Registration → Bool
is_paid_registration none = false
is_paid_registration (some r) = is_paid r.status

cancel_unpaid : Option Registration → Action Db (Unit {0})
cancel_unpaid none db = (ok tt, db)
cancel_unpaid (some r) db = (
  ok tt,
  if is_unpaid r.status
      then record db {
        registrations = update_where (λ x. x.id == r.id) cancelled_registration db.registrations;
      }
      else db,
)

-- `updateMany({ where: { id, version, status } })`
abbrev pub withdrawable : ℕ → ℕ → Bool → Paper → Bool
withdrawable paper_id version is_author p =
    p.id == paper_id && p.version == version && allowed_status is_author p.status

-- The transaction: `none` where the paper has changed since it was loaded.
unfoldable pub withdraw_rows : ℕ → ℕ → ℕ → Bool → Action Db (Option (Paper × Bool))
unfolding allowed_status cancel_unpaid
withdraw_rows conference_id paper_id version is_author db =
    if count_where (withdrawable paper_id version is_author) db.papers == 1
    then (do
      modify (λ d. record d {
        papers = update_where (withdrawable paper_id version is_author) closed_paper d.papers;
        assignments =
            update_where (λ a. a.paper_id == paper_id && not (is_completed a.status))
              declined_assignment d.assignments;
      })
      registration ← gets (registration_of conference_id paper_id)
      cancel_unpaid registration
      fresh ← gets (λ d. find (λ p. p.id == paper_id) d.papers)
      pure (elim fresh [ none ↦ none | some p ↦ some (p, is_paid_registration registration) ]))
        db
    else (ok none, db)

-- The order of delivery: each address at most once, the authors' first. `normalize` is
-- `trim().toLowerCase()`.
abbrev pub has_text : String → List String → Bool
has_text s = any (λ t. str_eq t s)

abbrev add_address : List String → String → List String
add_address told String.[] = told
add_address told (String.◌∷◌ c s) =
    if has_text (String.◌∷◌ c s) told then told else told ++ (String.◌∷◌ c s ∷ [])

unfoldable pub addresses : List String → List String → List String
addresses told [] = told
addresses told (e ∷ es) = addresses (add_address told e) es

-- `roles: { some: { role: { in: ['ORGANIZER', 'CHAIR', 'ORG_ADMIN'] } } }`
abbrev is_staff : ℕ → Membership → Bool
is_staff conference_id m =
    is_id m.conference_id conference_id
    && any (λ g. includes (organizer ∷ chair ∷ org_admin ∷ []) g.role) m.roles

abbrev email_of : List User → ℕ → String
email_of users id = elim (find (λ u. u.id == id) users) [ none ↦ String.[] | some u ↦ u.email ]

unfoldable pub withdrawal_recipients : (String → String) → ℕ → Paper → Db → List String
unfolding addresses
withdrawal_recipients normalize conference_id p db =
    addresses (addresses [] (map (λ a. normalize a.email) p.authorships)) (
      map (λ m. normalize (email_of db.users m.user_id))
        (filter_by (is_staff conference_id) db.memberships))

send_all : ℕ → List String → Action Db (Unit {0})
send_all paper_id [] db = (ok tt, db)
send_all paper_id (e ∷ es) db =
    send_all paper_id es
      (publish (record { template = "paper_withdrawn"; recipient = e; subject_id = paper_id }) db).1

-- What follows the transaction: the audit entry and the notices.
unfoldable pub announce : (String → String) → ℕ → ℕ → Paper → Action Db (Unit {0})
unfolding send_all
announce normalize user conference_id p = do
  log_audit (some user) "paper.withdrawn" p.id
  recipients ← gets (withdrawal_recipients normalize conference_id p)
  send_all p.id recipients

unfoldable pub withdraw : (String → String) → ℕ → ℕ → ℕ → ℕ → List RoleKind → Action Db Paper
withdraw normalize user conference_id paper_id version roles = do
  load_conference conference_id
  p ← load_paper_for_mutation conference_id paper_id
  lift (check_withdrawal (is_paper_author user p) (can_coordinate_review roles) p.status)
  result ← withdraw_rows conference_id paper_id version (is_paper_author user p)
  (fresh, _) ← or_raise result (Exception.conflict "Paper was modified by another request")
  announce normalize user conference_id p
  pure fresh

-- `deleteDraft`: the row goes only if it is still a draft when the transaction runs.
unfoldable pub delete_draft : ℕ → ℕ → ℕ → Action Db (Unit {0})
delete_draft user conference_id paper_id = do
  load_conference conference_id
  p ← load_paper_for_mutation conference_id paper_id
  raise_if (not (is_paper_author user p)) (forbidden "Only an author can delete this draft")
  raise_if (not (is_draft p.status)) (Exception.conflict "Only a draft can be deleted")
  hit ← gets (λ db. count_where (λ q. q.id == paper_id && is_draft q.status) db.papers)
  modify (λ db. record db {
    papers = delete_where (λ q. q.id == paper_id && is_draft q.status) db.papers;
  })
  raise_if (not (hit == 1)) (Exception.conflict "This draft can no longer be deleted")
  log_audit (some user) "paper.deleted" paper_id
