-- ===== src/Billing/Sweep/Grace.antt =====
-- Which registrations the two sweeps discard.
use open_conferences.Shared.{
  ℕ, ◌+◌, ◌*◌, ◌≤◌, ◌<◌, ◌≡◌, ap, ◌∙◌, Bool, true, false, not, ◌&&◌, Option, none, some, List,
  arith, ltb, ◌==◌, if◌then◌else◌, find,
}
use open_conferences.Store.{Db, log_audit}
use open_conferences.Billing.PaidState.{compute_paid_state, is_additional, is_effectively_paid}
use open_conferences.Billing.Sweep.{
  is_unsettled, is_in, is_candidate, is_skipped, discarded_registration, discard, tell_discarded,
  sweep_one, run_discard_sweep, worker_net, worker_skips, worker_one, process_discard_sweep_job,
}
use open_conferences.Billing.Sweep.Loop.{has_id, IsSweep, sweep_all_ok}
use open_conferences.Shared.Int.{ℤ, pos, leb_ℤ}
use open_conferences.Store.Rows.{
  Registration, RegistrationStatus, pending, awaiting_verification, additional_payment_required,
  paid, cancelled, refunded, discarded_nonpayment, Payment,
}
use open_conferences.Store.Tables.{count_where}

tell_discarded-keeps :
    (is_test : Bool) (r : Registration) (db : Db)
    → ((tell_discarded is_test r db).registrations ≡ db.registrations)
      × ((tell_discarded is_test r db).payments ≡ db.payments)
unfolding tell_discarded
tell_discarded-keeps is_test r db = (ground arith, ground arith)

abbrev service_skips : ℕ → ℕ → Registration → List Payment → Bool
service_skips now days r payments = is_skipped now days r (compute_paid_state r.id payments)

sweep_one-IsSweep :
    (now days : ℕ) (is_test : Bool) → IsSweep (service_skips now days) (sweep_one now days is_test)
unfolding sweep_one discard
sweep_one-IsSweep now days is_test =
    let told = λ (c : Registration) (db : Db).
      tell_discarded-keeps is_test c
        (log_audit none "registration.discarded_nonpayment" c.id (discard c db)).1 in
    record {
      payments_kept = λ c db. ground (arith, told c db);
      skipped = λ c db h. ground (arith, told c db);
      discarded = λ c db h. ground (arith, told c db);
    }

abbrev worker_skip : ℕ → Registration → List Payment → Bool
worker_skip now r payments = worker_skips now r (worker_net r.id payments)

worker_one-IsSweep : (now : ℕ) → IsSweep (worker_skip now) (worker_one now)
unfolding worker_one discard
worker_one-IsSweep now = record {
  payments_kept = λ c db. ground arith;
  skipped = λ c db h. ground arith;
  discarded = λ c db h. ground arith;
}

-- The statuses of a registration that is still to be paid or checked.
abbrev pub is_to_settle : RegistrationStatus → Bool
is_to_settle pending = true
is_to_settle awaiting_verification = true
is_to_settle additional_payment_required = true
is_to_settle paid = false
is_to_settle cancelled = false
is_to_settle refunded = false
is_to_settle discarded_nonpayment = false

-- The last instant at which the registration may be paid: its deadline, or where an additional
-- payment is asked for, the end of the grace that was given, or so many days after the deadline.
abbrev pub last_instant : ℕ → Registration → ℕ
last_instant days r = elim r.status [
  | additional_payment_required ↦ elim r.additional_grace_until [
    | some end ↦ end
    | none ↦ r.deadline_at + days * 86400000
  ]
  | _ ↦ r.deadline_at
]

-- Whether what is paid in total covers what is due; nothing due is covered only where an
-- additional payment is asked for.
abbrev pub is_covered : Registration → ℤ → Bool
is_covered r net =
    leb_ℤ (pos r.amount_due_minor) net
    && elim r.status [ additional_payment_required ↦ true | _ ↦ ltb 0 r.amount_due_minor ]

-- The rule: a registration of the conference, or of any where none is given, that is still to be
-- settled, whose last instant has passed and whose amount due is not covered.
abbrev pub must_discard : ℕ → ℕ → Option ℕ → Registration → Db → Bool
must_discard now days conference_id r db =
    is_to_settle r.status
    && elim conference_id [ none ↦ true | some k ↦ r.conference_id == k ]
    && ltb (last_instant days r) now
    && not (is_covered r (compute_paid_state r.id db.payments).net_minor)

skipped_iff_covered :
    (now days : ℕ) (conference_id : Option ℕ) (r : Registration) (db : Db)
    → (is_candidate now days conference_id r && not (service_skips now days r db.payments))
      ≡ must_discard now days conference_id r db
unfolding is_skipped is_effectively_paid
skipped_iff_covered now days conference_id r db = ground arith

-- The sweep of the service, run for one conference or for all, discards a registration exactly if
-- it is of that conference, it is pending, awaits verification or owes an additional payment, its
-- time to pay, grace period included, has passed, and what is due is not covered by its captures
-- less its completed refunds; else its row stays as it is. A registration with nothing due is not
-- covered, unless it owes an additional payment. Ids are distinct.
pub run_discard_sweep_ok :
    (now days : ℕ) (is_test : Bool) (conference_id : Option ℕ) (db : Db) (r : Registration)
    → find (has_id r.id) db.registrations ≡ some r
    → count_where (has_id r.id) db.registrations ≤ 1
    → find (has_id r.id) (run_discard_sweep now days is_test conference_id db).1.registrations
      ≡ some (
          if must_discard now days conference_id r db
          then record r { status = discarded_nonpayment; version = r.version + 1 }
          else r)
unfolding run_discard_sweep
run_discard_sweep_ok now days is_test conference_id db r found one =
    sweep_all_ok (service_skips now days) (sweep_one now days is_test)
      (sweep_one-IsSweep now days is_test) r (is_candidate now days conference_id) db found one
    ∙ ap (λ b. some (if b then discarded_registration r else r))
        (skipped_iff_covered now days conference_id r db)

-- A registration that owes an additional payment, whose deadline has passed and whose grace period
-- has not: the service keeps it, and the job of the worker discards it.
pub sweeps_disagree :
    (now days end : ℕ) (is_test : Bool) (db : Db) (r : Registration)
    → find (has_id r.id) db.registrations ≡ some r
    → count_where (has_id r.id) db.registrations ≤ 1
    → is_additional r.status ≡ true
    → r.additional_grace_until ≡ some end
    → r.deadline_at < now
    → now ≤ end
    → leb_ℤ (pos r.amount_due_minor) (worker_net r.id db.payments) ≡ false
    → (find (has_id r.id) (run_discard_sweep now days is_test none db).1.registrations ≡ some r)
      × (find (has_id r.id) (process_discard_sweep_job now none db).1.registrations
          ≡ some (discarded_registration r))
unfolding process_discard_sweep_job worker_skips
sweeps_disagree now days end is_test db r found one owes grace late early unpaid =
    let kept : must_discard now days none r db ≡ false = ground arith in
    let lost : (is_unsettled r.status && is_in none r && not (worker_skip now r db.payments))
        ≡ true =
      ground arith in
    (
      run_discard_sweep_ok now days is_test none db r found one ∙ rw kept,
      sweep_all_ok (worker_skip now) (worker_one now) (worker_one-IsSweep now) r
            (λ (x : Registration). is_unsettled x.status && is_in none x) db found one
          ∙ rw lost,
    )
