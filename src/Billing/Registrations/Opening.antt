-- ===== src/Billing/Registrations/Opening.antt =====
-- What the opening of a registration leaves behind.
use mathlib.Core.Path.{subst}
use open_conferences.Shared.{
  ==-refl, ℕ, ◌+◌, ◌≡◌, refl, sym, ap, ◌∙◌, inl, inr, Bool, true, false, ◌&&◌, Option, none, some,
  List, [], ◌∷◌, arith, ◌==◌, Bool-cases, Option-cases, find, find_sound, ok, Result-cases,
}
use open_conferences.Store.{Db}
use open_conferences.Billing.Fees.{registration_deadline}
use open_conferences.Billing.Registrations.{
  is_cancelled, is_registration_for, has_moved, reopened, is_unchanged, reopen, load_registration,
  open_new, open_from, open_registration, parse_fee_schedule,
}
use open_conferences.Store.Rows.{
  Conference, FeeSchedule, Registration, RegistrationStatus, cancelled, Payment, PaymentStatus,
  created, authorized, captured, failed, partially_refunded,
}
use open_conferences.Store.Tables.{count_where, update_where, insert_row}
use open_conferences.Store.Tables.Laws.{find-update_where}

-- The statuses of a payment through which money has moved.
abbrev pub moves_money : PaymentStatus → Bool
moves_money created = false
moves_money authorized = false
moves_money captured = true
moves_money failed = false
moves_money PaymentStatus.refunded = true
moves_money partially_refunded = true

-- The payments of the registration through which money has moved.
abbrev pub moved_count : ℕ → List Payment → ℕ
moved_count registration_id =
    count_where (λ (p : Payment). p.registration_id == registration_id && moves_money p.status)

moved_count-same : (id : ℕ) (ps : List Payment) → count_where (has_moved id) ps ≡ moved_count id ps
moved_count-same id [] = refl
moved_count-same id (p ∷ ps) = ground (arith, moved_count-same id ps)

-- How a registration was opened, with the rows before and after.
pub data How (id now conference_id paper_id : ℕ) (reg : Registration) (before after : Db)
    : Type 0 where
  inserted :
      find (is_registration_for conference_id paper_id) before.registrations ≡ none
      → reg.id ≡ id
      → reg.status ≡ RegistrationStatus.pending
      → reg.window_opens_at ≡ now
      → after.registrations ≡ insert_row reg before.registrations
      → How id now conference_id paper_id reg before after
  kept :
      find (is_registration_for conference_id paper_id) before.registrations ≡ some reg
      → after ≡ before
      → How id now conference_id paper_id reg before after
  opened_again :
      (r : Registration) (deadline : ℕ)
      → find (is_registration_for conference_id paper_id) before.registrations ≡ some r
      → r.status ≡ cancelled
      → moved_count r.id before.payments ≡ 0
      → r.locked_timing ≡ none
      → reg ≡ record r {
        status = RegistrationStatus.pending;
        window_opens_at = now;
        deadline_at = deadline;
        version = r.version + 1;
      }
      → find (is_registration_for conference_id paper_id) after.registrations ≡ some reg
      → after.registrations
        ≡ update_where
            (λ (x : Registration). x.id == r.id && is_cancelled x.status && x.version == r.version)
            (λ x. record x {
              status = RegistrationStatus.pending;
              window_opens_at = now;
              deadline_at = deadline;
              version = x.version + 1;
            })
            before.registrations
      → How id now conference_id paper_id reg before after

-- What is known of a registration that was opened.
pub record Opened (id now conference_id paper_id : ℕ) (reg : Registration) (before after : Db)
    : Type 0 where
  pub of_paper : is_registration_for conference_id paper_id reg ≡ true
  pub is_active : is_cancelled reg.status ≡ false
  pub payments_kept : after.payments ≡ before.payments
  pub how : How id now conference_id paper_id reg before after

module _ (id now organization_id conference_id paper_id : ℕ) (actor : Option ℕ)
    (schedule : FeeSchedule) (deadline : ℕ) where
  open_from-Opened :
      (db : Db) (existing : Option Registration) (reg : Registration)
      → find (is_registration_for conference_id paper_id) db.registrations ≡ existing
      → (open_from id now organization_id conference_id paper_id actor schedule deadline existing
          db).0
        ≡ ok reg
      → Opened id now conference_id paper_id reg db
          (open_from id now organization_id conference_id paper_id actor schedule deadline existing
            db).1
  unfolding open_from open_new reopen load_registration
  open_from-Opened db none reg found h = record {
    of_paper = ground (arith, ==-refl conference_id, ==-refl paper_id);
    is_active = ground arith;
    payments_kept = ground arith;
    how = inserted found (ground arith) (ground arith) (ground arith) (ground arith);
  }
  open_from-Opened db (some r) reg found h = elim (Bool-cases (is_cancelled r.status)) [
    | inr active ↦
        let same : r ≡ reg = ground arith in
        record {
          of_paper =
              find_sound (is_registration_for conference_id paper_id) db.registrations reg
                (found ∙ ap some same);
          is_active = ground arith;
          payments_kept = ground arith;
          how = kept (found ∙ ap some same) (ground arith);
        }
    | inl closed ↦
        let edit =
          find-update_where (is_unchanged r) (reopened now deadline)
            (is_registration_for conference_id paper_id) db.registrations (λ x. refl) in
        let same : reg ≡ reopened now deadline r =
          ground (arith, edit, ==-refl r.id, ==-refl r.version) in
        record {
          of_paper =
              rw same
                (find_sound (is_registration_for conference_id paper_id) db.registrations r found);
          is_active = rw same refl;
          payments_kept = ground arith;
          how =
              opened_again r deadline found (ground arith)
                (ground (arith, moved_count-same r.id db.payments)) (ground arith) same
                (ground (arith, edit, ==-refl r.id, ==-refl r.version)) (ground arith);
        }
  ]

-- A registration that is opened is the paper's and is not cancelled, and no payment is touched. It
-- is a new row, pending from now on, which is added where the paper had none; else it is the one
-- that the paper had and nothing changes, or that one opened again: it was cancelled, with no
-- captured or refunded payment and no locked timing, and it is found with its new window after.
pub open_registration_ok :
    (id now organization_id conference_id paper_id : ℕ) (actor : Option ℕ) (db : Db)
    (reg : Registration)
    → (open_registration id now organization_id conference_id paper_id actor db).0 ≡ ok reg
    → Opened id now conference_id paper_id reg db
        (open_registration id now organization_id conference_id paper_id actor db).1
unfolding open_registration
open_registration_ok id now organization_id conference_id paper_id actor db reg h =
    elim (Option-cases (find (λ (c : Conference). c.id == conference_id) db.conferences)) [
      | inl gone ↦ ground arith
      | inr (c, found) ↦ elim (Result-cases (parse_fee_schedule c)) [
        | inl (e, unpriced) ↦ ground arith
        | inr (schedule, parsed) ↦
            elim (Result-cases (registration_deadline schedule c.registration_due_at)) [
              | inl (e, undated) ↦ ground arith
              | inr (deadline, dated) ↦
                  let existing =
                    find (is_registration_for conference_id paper_id) db.registrations in
                  let runs : open_registration id now organization_id conference_id paper_id actor
                        db
                      ≡ open_from id now organization_id conference_id paper_id actor schedule
                          deadline existing db =
                    ground arith in
                  subst (λ r. Opened id now conference_id paper_id reg db r.1) (sym runs)
                    (open_from-Opened id now organization_id conference_id paper_id actor schedule
                      deadline db existing reg refl (ap (λ r. r.0) (sym runs) ∙ h))
            ]
      ]
    ]

-- The rows that neither an opening nor a release of decisions writes.
pub record SameRest (before after : Db) : Type 0 where
  pub papers_kept : after.papers ≡ before.papers
  pub assignments_kept : after.assignments ≡ before.assignments
  pub reviews_kept : after.reviews ≡ before.reviews
  pub rounds_kept : after.rounds ≡ before.rounds
  pub payments_kept : after.payments ≡ before.payments

open_from-SameRest :
    (id now organization_id conference_id paper_id : ℕ) (actor : Option ℕ) (schedule : FeeSchedule)
    (deadline : ℕ) (existing : Option Registration) (db : Db)
    → SameRest db
        (open_from id now organization_id conference_id paper_id actor schedule deadline existing
          db).1
      × ((open_from id now organization_id conference_id paper_id actor schedule deadline existing
            db).1.decisions
          ≡ db.decisions)
unfolding open_from open_new reopen load_registration
open_from-SameRest id now organization_id conference_id paper_id actor schedule deadline none db =
    ground arith
open_from-SameRest id now organization_id conference_id paper_id actor schedule deadline (some r)
      db =
    ground arith

-- An opening writes registrations and the audit log only.
pub open_registration-SameRest :
    (id now organization_id conference_id paper_id : ℕ) (actor : Option ℕ) (db : Db)
    → SameRest db (open_registration id now organization_id conference_id paper_id actor db).1
      × ((open_registration id now organization_id conference_id paper_id actor db).1.decisions
          ≡ db.decisions)
unfolding open_registration
open_registration-SameRest id now organization_id conference_id paper_id actor db =
    elim (Option-cases (find (λ (c : Conference). c.id == conference_id) db.conferences)) [
      | inl gone ↦ ground arith
      | inr (c, found) ↦ elim (Result-cases (parse_fee_schedule c)) [
        | inl (e, unpriced) ↦ ground arith
        | inr (schedule, parsed) ↦
            elim (Result-cases (registration_deadline schedule c.registration_due_at)) [
              | inl (e, undated) ↦ ground arith
              | inr (deadline, dated) ↦
                  let existing =
                    find (is_registration_for conference_id paper_id) db.registrations in
                  let runs : open_registration id now organization_id conference_id paper_id actor
                        db
                      ≡ open_from id now organization_id conference_id paper_id actor schedule
                          deadline existing db =
                    ground arith in
                  subst (λ r. SameRest db r.1 × (r.1.decisions ≡ db.decisions)) (sym runs)
                    (open_from-SameRest id now organization_id conference_id paper_id actor schedule
                      deadline existing db)
            ]
      ]
    ]
