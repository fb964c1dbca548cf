-- ===== src/Review/Announce/Released.antt =====
-- What the release of decisions to their authors does.
use open_conferences.Shared.{
  ℕ, ◌≡◌, refl, inl, inr, true, List, [], ◌∷◌, arith, Option-cases, length, every, ok,
}
use open_conferences.Store.{Db, publish}
use open_conferences.Billing.Registrations.Opening.{}
use open_conferences.Review.Announce.{
  is_releasable, is_one_of, notified, address_for, tell_decisions, release_decisions,
}
use open_conferences.Store.Rows.{Decision, Paper}
use open_conferences.Store.Tables.{count_where, update_where}

pub tell_decisions-keeps :
    (papers : List Paper) (ds : List Decision) (db : Db)
    → ((tell_decisions papers ds db).1.decisions ≡ db.decisions)
      × ((tell_decisions papers ds db).1.registrations ≡ db.registrations)
unfolding tell_decisions
tell_decisions-keeps papers [] db = (refl, refl)
tell_decisions-keeps papers (d ∷ ds) db = elim (Option-cases (address_for papers d)) [
  | inl none_loaded ↦ ground (arith, tell_decisions-keeps papers ds db)
  | inr (email, found) ↦
      let sent =
        (publish (record { template = "decision.notified"; recipient = email; subject_id = d.id })
          db).1 in
      ground (arith, tell_decisions-keeps papers ds sent)
]

-- What a release leaves.
pub record IsRelease (now conference_id : ℕ) (decisions : List Decision) (before after : Db)
    : Type 0 where
  pub all_current : every (is_releasable conference_id before) decisions ≡ true
  pub all_stored :
      count_where (is_one_of conference_id decisions) before.decisions ≡ length decisions
  pub decisions_after :
      after.decisions
      ≡ update_where (is_one_of conference_id decisions) (notified now) before.decisions

pub release_decisions_ok :
    (now conference_id : ℕ) (papers : List Paper) (decisions : List Decision) (db : Db)
    → (release_decisions now conference_id papers decisions db).0 ≡ ok tt
    → IsRelease now conference_id decisions db
        (release_decisions now conference_id papers decisions db).1
unfolding release_decisions
release_decisions_ok now conference_id papers decisions db h =
    let marked : Db = record db {
      decisions = update_where (is_one_of conference_id decisions) (notified now) db.decisions;
    } in
    let told = tell_decisions-keeps papers decisions marked in
    record {
      all_current = ground arith;
      all_stored = ground arith;
      decisions_after = ground (arith, told);
    }
