-- ===== src/Review/Announce/Made.antt =====
-- What `makeDecision` leaves.
use mathlib.Core.Path.{subst}
use open_conferences.Shared.{
  ==-sound, ℕ, ◌≡◌, sym, ap, ◌∙◌, inl, inr, Bool, true, false, ◌&&◌, some, List, [], ◌∷◌, arith,
  ◌==◌, if◌then◌else◌, Option-cases, any, find, find_sound, Result, ok, Action, when, Result-cases,
}
use open_conferences.Store.{Db, log_audit, publish}
use open_conferences.Billing.Registrations.{open_registration}
use open_conferences.Billing.Registrations.Opening.{
  Opened, open_registration_ok, SameRest, open_registration-SameRest,
}
use open_conferences.Review.Announce.{
  is_one_of, notified, address_for, tell_decisions, release_decisions, notify_decision_authors,
  open_if_accepted, MakeInput, make_decision,
}
use open_conferences.Review.Announce.Released.{tell_decisions-keeps, release_decisions_ok}
use open_conferences.Review.Decide.{apply_decision, DecisionInput, is_accept}
use open_conferences.Review.Decide.Outcomes.{Decided, apply_decision-Decided}
use open_conferences.Review.Reviews.Guards.{load_round-reads, load_round_ok}
use open_conferences.Review.Rounds.{load_round}
use open_conferences.Store.Rows.{Registration, Conference, Decision, Paper, ReviewRound, RoleKind}
use open_conferences.Store.Tables.{update_where}
use open_conferences.Tenancy.Conferences.{load_conference, is_live}
use open_conferences.Tenancy.Roles.{can_coordinate_review}

tell_decisions-SameRest :
    (papers : List Paper) (ds : List Decision) (db : Db)
    → SameRest db (tell_decisions papers ds db).1
unfolding tell_decisions
tell_decisions-SameRest papers [] db = ground arith
tell_decisions-SameRest papers (d ∷ ds) db = elim (Option-cases (address_for papers d)) [
  | inl none_loaded ↦ ground (arith, tell_decisions-SameRest papers ds db)
  | inr (email, found) ↦
      let sent =
        (publish (record { template = "decision.notified"; recipient = email; subject_id = d.id })
          db).1 in
      ground (arith, tell_decisions-SameRest papers ds sent)
]

release_decisions-keeps :
    (now conference_id : ℕ) (papers : List Paper) (decisions : List Decision) (db : Db)
    → SameRest db (release_decisions now conference_id papers decisions db).1
      × ((release_decisions now conference_id papers decisions db).1.registrations
          ≡ db.registrations)
unfolding release_decisions
release_decisions-keeps now conference_id papers decisions db =
    let marked : Db = record db {
      decisions = update_where (is_one_of conference_id decisions) (notified now) db.decisions;
    } in
    ground (
      arith,
      tell_decisions-keeps papers decisions marked,
      tell_decisions-SameRest papers decisions marked,
    )

-- The decisions after the last step of `makeDecision`: the one that was made is marked as released
-- if that was asked for.
abbrev pub after_release : ℕ → ℕ → Bool → Decision → List Decision → List Decision
after_release now conference_id notify d rows =
    if notify
    then update_where
        (λ x. any (λ (y : Decision). y.id == x.id) (d ∷ []) && x.conference_id == conference_id)
        (λ x. record x { notified_at = some now }) rows
    else rows

release_if : ℕ → Bool → Paper → Decision → Action Db (Unit {0})
release_if now notify p d = when notify (notify_decision_authors now (p ∷ []) (d ∷ []))

release_if_ok :
    (now : ℕ) (notify : Bool) (p : Paper) (d : Decision) (db : Db)
    → (release_if now notify p d db).0 ≡ ok tt
    → SameRest db (release_if now notify p d db).1
      × ((release_if now notify p d db).1.registrations ≡ db.registrations)
      × ((release_if now notify p d db).1.decisions
          ≡ after_release now p.conference_id notify d db.decisions)
unfolding release_if notify_decision_authors
release_if_ok now false p d db h = ground arith
release_if_ok now true p d db h =
    let (kept, rows) = release_decisions-keeps now p.conference_id (p ∷ []) (d ∷ []) db in
    let done = release_decisions_ok now p.conference_id (p ∷ []) (d ∷ []) db h in
    (kept, rows, done.decisions_after)

open_if_accepted-keeps :
    (fresh : ℕ → ℕ) (now user : ℕ) (c : Conference) (d : Decision) (db : Db)
    → SameRest db (open_if_accepted fresh now user c d db).1
      × ((open_if_accepted fresh now user c d db).1.decisions ≡ db.decisions)
unfolding open_if_accepted
open_if_accepted-keeps fresh now user c d db = ground (
  arith,
  open_registration-SameRest (fresh d.paper_id) now c.organization_id c.id d.paper_id (some user)
      db,
)

-- What `makeDecision` leaves: the decision as it is made in one transaction, on the stored round
-- that was asked for, the registration, and the release.
pub record Makes (fresh : ℕ → ℕ) (id now user conference_id paper_id : ℕ) (input : MakeInput)
    (db after : Db) (d : Decision) : Type 0 where
  pub conference : Conference
  pub round : ReviewRound
  pub early : Bool
  pub decided_db : Db
  pub opened_db : Db
  pub is_live_conference : find (is_live conference_id) db.conferences ≡ some conference
  pub round_found : find (λ (r : ReviewRound). r.id == input.round_id) db.rounds ≡ some round
  pub round_in_conference : round.conference_id ≡ conference_id
  pub made :
      apply_decision id now user conference_id paper_id round input.decision db
      ≡ (ok (d, early), decided_db)
  pub decided : Decided id now user conference_id paper_id round input.decision db decided_db
  pub is_asked_for : d.outcome ≡ input.decision.outcome
  pub is_of_paper : d.paper_id ≡ paper_id
  pub accepted :
      is_accept d.outcome ≡ true
      → (reg : Registration) × Opened
          (fresh paper_id)
          now
          conference.id
          paper_id
          reg
          (log_audit (some user) "decision.made" d.id decided_db).1
          opened_db
  pub not_accepted :
      is_accept d.outcome ≡ false → opened_db.registrations ≡ decided_db.registrations
  pub registrations_after : after.registrations ≡ opened_db.registrations
  pub decisions_after :
      after.decisions ≡ after_release now conference_id input.notify d decided_db.decisions
  pub rest_after : SameRest decided_db after

pair_of : {A : Type 0} {x : Result A × Db} {r : Result A} → x.0 ≡ r → x ≡ (r, x.1)
pair_of {A} {x} {r} h = ap (λ y. (y, x.1)) h

-- An accepted paper's registration is opened, another paper's is not touched.
open_if_accepted_ok :
    (fresh : ℕ → ℕ) (now user : ℕ) (c : Conference) (d : Decision) (db : Db)
    → (open_if_accepted fresh now user c d db).0 ≡ ok tt
    → is_accept d.outcome ≡ true
    → (reg : Registration) × Opened
        (fresh d.paper_id)
        now
        c.id
        d.paper_id
        reg
        db
        (open_if_accepted fresh now user c d db).1
unfolding open_if_accepted
open_if_accepted_ok fresh now user c d db h accepts =
    let run =
      open_registration (fresh d.paper_id) now c.organization_id c.id d.paper_id (some user) in
    elim (Result-cases (run db).0) [
      | inl (e, refused) ↦ absurd (ground arith)
      | inr (reg, returned) ↦
          let last : (open_if_accepted fresh now user c d db).1 ≡ (run db).1 = ground arith in
          (
            reg,
            subst (λ x. Opened (fresh d.paper_id) now c.id d.paper_id reg db x) (sym last)
                (open_registration_ok (fresh d.paper_id) now c.organization_id c.id d.paper_id
                  (some user) db reg returned),
          )
    ]

open_if_accepted_other :
    (fresh : ℕ → ℕ) (now user : ℕ) (c : Conference) (d : Decision) (db : Db)
    → is_accept d.outcome ≡ false
    → (open_if_accepted fresh now user c d db).1 ≡ db
unfolding open_if_accepted
open_if_accepted_other fresh now user c d db other = ground arith

-- The decision that is answered is on the paper and has the outcome that was asked for.
apply_decision_new :
    (id now user conference_id paper_id : ℕ) (round : ReviewRound) (input : DecisionInput) (db : Db)
    (d : Decision) (early : Bool)
    → (apply_decision id now user conference_id paper_id round input db).0 ≡ ok (d, early)
    → (d.outcome ≡ input.outcome) × (d.paper_id ≡ paper_id)
unfolding apply_decision
apply_decision_new id now user conference_id paper_id round input db d early h =
    let test = λ (p : Paper). p.id == paper_id && p.conference_id == conference_id in
    elim (Option-cases (find test db.papers)) [
      | inl gone ↦ absurd (ground arith)
      | inr (p, found) ↦
          let passes = find_sound test db.papers p found in
          let named : p.id ≡ paper_id = ==-sound p.id paper_id (ground arith) in
          let on : d.paper_id ≡ p.id = ground arith in (ground arith, on ∙ named)
    ]

made_by :
    (fresh : ℕ → ℕ) (id now user conference_id paper_id : ℕ) (input : MakeInput) (db after : Db)
    (d : Decision) (c : Conference) (round : ReviewRound) (early : Bool) (decided_db opened_db : Db)
    (decided : Decided id now user conference_id paper_id round input.decision db decided_db)
    → find (is_live conference_id) db.conferences ≡ some c
    → (find (λ (r : ReviewRound). r.id == input.round_id) db.rounds ≡ some round)
      × (round.conference_id ≡ conference_id)
    → apply_decision id now user conference_id paper_id round input.decision db
      ≡ (ok (d, early), decided_db)
    → open_if_accepted fresh now user c d (log_audit (some user) "decision.made" d.id decided_db).1
      ≡ (ok tt, opened_db)
    → (release_if now input.notify decided.paper d opened_db).0 ≡ ok tt
    → after ≡ (release_if now input.notify decided.paper d opened_db).1
    → Makes fresh id now user conference_id paper_id input db after d
made_by fresh id now user conference_id paper_id input db after d c round early decided_db opened_db
      decided live (round_found, in_conference) made opened run last =
    let p = decided.paper in
    let logged = (log_audit (some user) "decision.made" d.id decided_db).1 in
    let (asked, on_paper) =
      apply_decision_new id now user conference_id paper_id round input.decision db d early
        (ap (λ r. r.0) made) in
    let (kept, rows) =
      open_if_accepted-keeps fresh now user c d
        (log_audit (some user) "decision.made" d.id decided_db).1 in
    let (rest, registrations, decisions) = release_if_ok now input.notify p d opened_db run in
    let passes =
      find_sound (λ (q : Paper). q.id == paper_id && q.conference_id == conference_id) db.papers p
        decided.is_found in
    let of_conference : p.conference_id ≡ conference_id =
      ==-sound p.conference_id conference_id (ground arith) in
    let same_db : opened_db
        ≡ (open_if_accepted fresh now user c d
            (log_audit (some user) "decision.made" d.id decided_db).1).1 =
      ap (λ r. r.1) (sym opened) in
    let same_rows : opened_db.decisions ≡ decided_db.decisions =
      ap (λ (x : Db). x.decisions) same_db ∙ rows in
    record {
      conference = c;
      round = round;
      early = early;
      decided_db = decided_db;
      opened_db = opened_db;
      is_live_conference = live;
      round_found = round_found;
      round_in_conference = in_conference;
      made = made;
      decided = decided;
      is_asked_for = asked;
      is_of_paper = on_paper;
      accepted = λ accepts.
          let (reg, is_open) =
            open_if_accepted_ok fresh now user c d logged (ap (λ r. r.0) opened) accepts in
          (
            reg,
            subst (λ k. Opened (fresh k) now c.id k reg logged opened_db) on_paper
                (subst (λ x. Opened (fresh d.paper_id) now c.id d.paper_id reg logged x)
                  (sym same_db) is_open),
          );
      not_accepted = λ other.
          ap (λ (x : Db). x.registrations)
            (same_db ∙ open_if_accepted_other fresh now user c d logged other);
      registrations_after = ap (λ (x : Db). x.registrations) last ∙ registrations;
      decisions_after =
          ap (λ (x : Db). x.decisions) last
          ∙ decisions
          ∙ ap (λ k. after_release now k input.notify d opened_db.decisions) of_conference
          ∙ ap (after_release now conference_id input.notify d) same_rows;
      rest_after = ground (arith, rest, kept, same_db, last);
    }

-- A decision that `makeDecision` returns was made by a coordinator, on the current version of an
-- active paper, in the stored cycle that was asked for, which is of the paper and the conference and
-- had an assignment and no decision; it is on that paper, with the outcome that was asked for. If it
-- accepts the paper, the paper's registration is opened; if not, registrations are as the
-- transaction of the decision left them. The decision is marked as released if that was asked for.
-- Papers, assignments, reviews, rounds, payments and the other decisions are as the transaction of
-- the decision left them.
pub make_decision_ok :
    (fresh : ℕ → ℕ) (id now user conference_id paper_id : ℕ) (input : MakeInput)
    (roles : List RoleKind) (db : Db) (d : Decision)
    → (make_decision fresh id now user conference_id paper_id input roles db).0 ≡ ok d
    → (can_coordinate_review roles ≡ true)
      × Makes fresh id now user conference_id paper_id input db
          (make_decision fresh id now user conference_id paper_id input roles db).1
          d
unfolding make_decision load_conference release_if
make_decision_ok fresh id now user conference_id paper_id input roles db d h =
    let read = load_round-reads conference_id input.round_id db in
    elim (Option-cases (find (is_live conference_id) db.conferences)) [
      | inl gone ↦ absurd (ground arith)
      | inr (c, live) ↦ elim (Result-cases (load_round conference_id input.round_id db).0) [
        | inl (e, refused) ↦ absurd (ground arith)
        | inr (round, loaded) ↦
            elim (Result-cases
              (apply_decision id now user conference_id paper_id round input.decision db).0) [
                | inl (e, refused) ↦ absurd (ground arith)
                | inr ((d', early), made) ↦
                    let decided_db =
                      (apply_decision id now user conference_id paper_id round input.decision
                        db).1 in
                    let decided =
                      apply_decision-Decided id now user conference_id paper_id round input.decision
                        db (d', early) made in
                    let found = decided.is_found in
                    let logged = (log_audit (some user) "decision.made" d'.id decided_db).1 in
                    elim (Result-cases (open_if_accepted fresh now user c d' logged).0) [
                      | inl (e, refused) ↦ absurd (ground arith)
                      | inr (u, opened) ↦
                          let opened_db = (open_if_accepted fresh now user c d' logged).1 in
                          let run : (release_if now input.notify decided.paper d' opened_db).0
                              ≡ ok tt =
                            ground arith in
                          let last : (make_decision fresh id now user conference_id paper_id input
                                roles db).1
                              ≡ (release_if now input.notify decided.paper d' opened_db).1 =
                            ground arith in
                          let same : d ≡ d' = ground arith in
                          (
                            ground arith,
                            subst
                                (λ x.
                                  Makes fresh id now user conference_id paper_id input db
                                    (make_decision fresh id now user conference_id paper_id input
                                      roles db).1
                                    x)
                                (sym same)
                                (made_by fresh id now user conference_id paper_id input db
                                  (make_decision fresh id now user conference_id paper_id input
                                    roles db).1
                                  d' c round early decided_db opened_db decided live
                                  (load_round_ok conference_id input.round_id db round loaded)
                                  (pair_of made) (pair_of opened) run last),
                          )
                    ]
              ]
      ]
    ]
