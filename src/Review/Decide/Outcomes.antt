-- ===== src/Review/Decide/Outcomes.antt =====
-- What a decision does to the paper, to its round and to its registration.
use open_conferences.Shared.{
  ℕ, ◌≡◌, refl, ◌∙◌, ◌⊎◌, inl, inr, Bool, true, false, ◌&&◌, some, List, [], ◌∷◌, arith, ◌==◌,
  Bool-cases, Option-cases, any, find, All, Exception, ok, err,
}
use open_conferences.Store.{Db}
use open_conferences.Review.Decide.{
  DecisionInput, is_active_registration, cancelled_by_decision, is_decision_of, check_decision,
  write_decision, apply_decision, new_decision, is_accept,
}
use open_conferences.Store.Rows.{Decision, Paper, ReviewRound, Registration}
use open_conferences.Store.Tables.{update_where, count_where}
use open_conferences.Store.Tables.Laws.{count_where-insert_row}
use open_conferences.Submission.Queries.{is_closed}

-- No registration of the paper is active.
abbrev pub NoneActive : ℕ → List Registration → Type 0
NoneActive paper_id = All (λ r. is_active_registration paper_id r ≡ false)

cancelled-NoneActive :
    (paper_id : ℕ) (rows : List Registration)
    → NoneActive paper_id
        (update_where (is_active_registration paper_id) cancelled_by_decision rows)
cancelled-NoneActive paper_id [] = tt
cancelled-NoneActive paper_id (r ∷ rows) = (ground arith, cancelled-NoneActive paper_id rows)

none-count : {A : Type 0} (q : A → Bool) (xs : List A) → any q xs ≡ false → count_where q xs ≡ 0
none-count q [] h = refl
none-count q (x ∷ xs) h = ground (arith, none-count q xs)

-- What a decision that was made had found, and what it wrote.
pub record Decided (id now user conference_id paper_id : ℕ) (round : ReviewRound)
    (input : DecisionInput) (before after : Db) : Type 0 where
  pub paper : Paper
  pub is_found :
      find (λ p. p.id == paper_id && p.conference_id == conference_id) before.papers ≡ some paper
  pub current : paper.version ≡ input.version
  pub active : is_closed paper.status ≡ false
  pub of_paper : round.paper_id ≡ paper.id
  pub reviewed :
      any
        (λ a. a.paper_id == paper.id && a.round_id == round.id && a.conference_id == conference_id)
        before.assignments
      ≡ true
  pub first : any (is_decision_of paper.id round.id) before.decisions ≡ false
  pub written : after ≡ write_decision id now user conference_id paper round input before

module _ (id now user conference_id paper_id : ℕ) (round : ReviewRound) (input : DecisionInput)
    (db : Db) where
  write_decision-once :
      (p : Paper)
      → any (is_decision_of p.id round.id) db.decisions ≡ false
      → count_where
          (is_decision_of p.id round.id)
          (write_decision id now user conference_id p round input db).decisions
        ≡ 1
  unfolding write_decision
  write_decision-once p first =
      count_where-insert_row (is_decision_of p.id round.id)
        (new_decision id now user conference_id p.id round input) db.decisions
      ∙ ground (arith, none-count (is_decision_of p.id round.id) db.decisions first)

  write_decision-NoneActive :
      (p : Paper)
      → is_accept input.outcome ≡ false
      → NoneActive p.id (write_decision id now user conference_id p round input db).registrations
  unfolding write_decision
  write_decision-NoneActive p h = rw h (cancelled-NoneActive p.id db.registrations)

  -- A decision that is made is on the current version of a paper that was not withdrawn, in a
  -- cycle of that paper with an assignment and without a decision, and is written as a whole.
  pub apply_decision-Decided :
      (d : Decision × Bool)
      → (apply_decision id now user conference_id paper_id round input db).0 ≡ ok d
      → Decided id now user conference_id paper_id round input db
          (apply_decision id now user conference_id paper_id round input db).1
  unfolding apply_decision check_decision
  apply_decision-Decided d h =
      elim (Option-cases
        (find (λ p. p.id == paper_id && p.conference_id == conference_id) db.papers)) [
          | inl gone ↦ ground arith
          | inr (p, found) ↦ record {
            paper = p;
            is_found = found;
            current = ground arith;
            active = ground arith;
            of_paper = ground arith;
            reviewed = ground arith;
            first = ground arith;
            written = ground arith;
          }
        ]

  -- After a decision that is made there is exactly one decision on the paper in that cycle, and
  -- unless it accepts the paper, no registration of the paper is active.
  pub apply_decision-once :
      (d : Decision × Bool)
      → (apply_decision id now user conference_id paper_id round input db).0 ≡ ok d
      → (p : Paper) × (find (λ q. q.id == paper_id && q.conference_id == conference_id) db.papers
          ≡ some p)
        × (count_where
              (is_decision_of p.id round.id)
              (apply_decision id now user conference_id paper_id round input db).1.decisions
            ≡ 1)
        × ((is_accept input.outcome ≡ true)
            ⊎ NoneActive p.id
                (apply_decision id now user conference_id paper_id round input db).1.registrations)
  apply_decision-once d h =
      let made = apply_decision-Decided d h in
      (
        made.paper,
        made.is_found,
        rw made.written (write_decision-once made.paper made.first),
        elim (Bool-cases (is_accept input.outcome)) [
          | inl accepted ↦ inl accepted
          | inr other ↦ inr (rw made.written (write_decision-NoneActive made.paper other))
        ],
      )

  -- A refused decision changes nothing.
  pub apply_decision_error_unchanged :
      {e : Exception}
      → (apply_decision id now user conference_id paper_id round input db).0 ≡ err e
      → (apply_decision id now user conference_id paper_id round input db).1 ≡ db
  unfolding apply_decision
  apply_decision_error_unchanged h = ground arith
