-- ===== src/Billing/Sweep.antt =====
-- The sweep of unpaid registrations: `runDiscardSweep` of
-- apps/api/src/billing/discard-sweep.service.ts, and `processDiscardSweepJob` of
-- apps/worker/src/discard-sweep.ts, which is the one that the worker runs.
pub mod Loop
pub mod Grace
mod Tests
use text.Mathlib.Text.{◌==◌ as str_eq}
use open_conferences.Shared.{
  ℕ, ◌+◌, ◌*◌, Bool, true, false, not, ◌&&◌, ◌||◌, Option, none, some, List, [], ◌∷◌, ltb, leb,
  ◌==◌, if◌then◌else◌, find, filter_by, sum_of,
}
use open_conferences.Store.{Db, log_audit, publish}
use open_conferences.Billing.PaidState.{
  PaidState, compute_paid_state, is_effectively_paid, is_additional, is_awaiting, is_capture,
  is_refund_kind, amount_if,
}
use open_conferences.Shared.Int.{ℤ, pos, sub_ℕ, leb_ℤ, ltb_ℤ}
use open_conferences.Store.Rows.{
  Registration, RegistrationStatus, paid, discarded_nonpayment, cancelled, refunded, Payment, Paper,
  withdrawn_nonpayment,
}
use open_conferences.Store.Tables.{update_where}

-- `notIn: ['PAID', 'DISCARDED_NONPAYMENT', 'CANCELLED', 'REFUNDED']`
abbrev pub is_unsettled : RegistrationStatus → Bool
is_unsettled paid = false
is_unsettled discarded_nonpayment = false
is_unsettled cancelled = false
is_unsettled RegistrationStatus.refunded = false
is_unsettled _ = true

abbrev pub is_in : Option ℕ → Registration → Bool
is_in none r = true
is_in (some conference_id) r = r.conference_id == conference_id

-- `additionalGraceDays * 86400000`
abbrev pub grace_ms : ℕ → ℕ
grace_ms days = days * 86400000

-- The end of the time to pay: the deadline, or where an additional payment is asked for, the end
-- of its grace period.
abbrev pub due_end : ℕ → Registration → ℕ
due_end days r =
    if is_additional r.status
    then elim r.additional_grace_until [ none ↦ r.deadline_at + grace_ms days | some end ↦ end ]
    else r.deadline_at

-- The rows that `findMany` selects.
abbrev pub is_candidate : ℕ → ℕ → Option ℕ → Registration → Bool
is_candidate now days conference_id r =
    is_unsettled r.status && is_in conference_id r && ltb (due_end days r) now

-- The branches that skip a candidate.
unfoldable pub is_skipped : ℕ → ℕ → Registration → PaidState → Bool
is_skipped now days r s =
    (is_awaiting r.status && is_effectively_paid r s)
    || (if is_additional r.status
        then not (leb now (due_end days r) && ltb_ℤ s.net_minor (pos r.amount_due_minor))
          && leb_ℤ (pos r.amount_due_minor) s.net_minor
        else leb_ℤ (pos r.amount_due_minor) s.net_minor && ltb 0 r.amount_due_minor)

abbrev pub discarded_registration : Registration → Registration
discarded_registration r = record r { status = discarded_nonpayment; version = r.version + 1 }

abbrev pub unpaid_paper : Paper → Paper
unpaid_paper p = record p { status = withdrawn_nonpayment; version = p.version + 1 }

-- The transaction on one registration.
unfoldable pub discard : Registration → Db → Db
discard r db = record db {
  registrations =
      update_where (λ (x : Registration). x.id == r.id) discarded_registration db.registrations;
  papers = update_where (λ (p : Paper). p.id == r.paper_id) unpaid_paper db.papers;
}

-- The mail to the corresponding author, not sent in tests.
unfoldable pub tell_discarded : Bool → Registration → Db → Db
tell_discarded is_test r db = elim (find (λ (p : Paper). p.id == r.paper_id) db.papers) [
  | none ↦ db
  | some p ↦ elim (find (λ a. a.is_corresponding) p.authorships) [
    | none ↦ db
    | some a ↦
        if str_eq a.email "" || is_test
        then db
        else (publish
            (record { template = "registration.discarded"; recipient = a.email; subject_id = r.id })
            db).1
  ]
]

-- One candidate of `runDiscardSweep`.
unfoldable pub sweep_one : ℕ → ℕ → Bool → Registration → Db → ℕ × Db
sweep_one now days is_test r db =
    if is_skipped now days r (compute_paid_state r.id db.payments) then (0, db) else (
      1,
      tell_discarded is_test r
          (log_audit none "registration.discarded_nonpayment" r.id (discard r db)).1,
    )

-- The loop over the candidates.
unfoldable pub sweep_all : (Registration → Db → ℕ × Db) → List Registration → Db → ℕ × Db
sweep_all step [] db = (0, db)
sweep_all step (r ∷ rs) db =
    let (n, db') = step r db in let (m, db'') = sweep_all step rs db' in (n + m, db'')

unfoldable pub run_discard_sweep : ℕ → ℕ → Bool → Option ℕ → Db → ℕ × Db
run_discard_sweep now days is_test conference_id db =
    sweep_all (sweep_one now days is_test)
      (filter_by (is_candidate now days conference_id) db.registrations) db

-- What the worker counts as paid: every refund, in whatever state, is taken off.
unfoldable pub worker_net : ℕ → List Payment → ℤ
worker_net registration_id payments =
    sub_ℕ
      (sum_of
        (λ (p : Payment).
          amount_if (p.registration_id == registration_id && is_capture p) p.amount_minor)
        payments)
      (sum_of
        (λ (p : Payment).
          amount_if (p.registration_id == registration_id && is_refund_kind p.kind) p.amount_minor)
        payments)

abbrev pub is_past_grace : ℕ → Registration → Bool
is_past_grace now r =
    is_additional r.status
    && elim r.additional_grace_until [ none ↦ false | some end ↦ ltb end now ]

unfoldable pub worker_skips : ℕ → Registration → ℤ → Bool
worker_skips now r net =
    (is_awaiting r.status && leb_ℤ (pos r.amount_due_minor) net)
    || (leb_ℤ (pos r.amount_due_minor) net && ltb 0 r.amount_due_minor)
    || (not (ltb r.deadline_at now) && not (is_past_grace now r))

unfoldable pub worker_one : ℕ → Registration → Db → ℕ × Db
worker_one now r db =
    if worker_skips now r (worker_net r.id db.payments) then (0, db) else (1, discard r db)

-- `processDiscardSweepJob`
unfoldable pub process_discard_sweep_job : ℕ → Option ℕ → Db → ℕ × Db
process_discard_sweep_job now conference_id db =
    sweep_all (worker_one now)
      (filter_by (λ (r : Registration). is_unsettled r.status && is_in conference_id r)
        db.registrations)
      db
