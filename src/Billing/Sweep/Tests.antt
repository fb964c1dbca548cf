-- ===== src/Billing/Sweep/Tests.antt =====
-- The theorems on the sweeps, applied to one registration that owes an additional payment.
use open_conferences.Samples.{accepted_db, registration}
use open_conferences.Shared.{◌≡◌, refl, true, none, some, [], ◌∷◌, arith, if◌then◌else◌, find}
use open_conferences.Store.{Db}
use open_conferences.Billing.Sweep.{
  worker_net, discarded_registration, run_discard_sweep, process_discard_sweep_job,
}
use open_conferences.Billing.Sweep.Grace.{must_discard, run_discard_sweep_ok, sweeps_disagree}
use open_conferences.Billing.Sweep.Loop.{has_id}
use open_conferences.Store.Rows.{Registration, additional_payment_required}

-- Its deadline is 300 and its grace period ends at 900.
abbrev owing : Registration
owing = record registration {
  status = additional_payment_required;
  additional_grace_until = some 900;
}

abbrev owing_db : Db
owing_db = record accepted_db { registrations = owing ∷ [] }

run_discard_sweep_ok_example :
    find (has_id 50) (run_discard_sweep 1000 7 true none owing_db).1.registrations
    ≡ some (if must_discard 1000 7 none owing owing_db then discarded_registration owing else owing)
run_discard_sweep_ok_example =
    run_discard_sweep_ok 1000 7 true none owing_db owing refl (omega arith)

sweeps_disagree_example :
    (find (has_id 50) (run_discard_sweep 400 7 true none owing_db).1.registrations ≡ some owing)
    × (find (has_id 50) (process_discard_sweep_job 400 none owing_db).1.registrations
        ≡ some (discarded_registration owing))
unfolding worker_net
sweeps_disagree_example =
    sweeps_disagree 400 7 900 true owing_db owing refl (omega arith) refl refl (omega arith)
      (omega arith) refl
