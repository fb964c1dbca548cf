-- ===== src/Submission/Submit/Limit.antt =====
-- The limit on the papers that one author corresponds for, and the loop that draws a number.
use native.Mathlib.Nat.{add-zero}
use open_conferences.Shared.{
  arith, ℕ, zero, suc, ◌+◌, ◌≤◌, ◌<◌, String, ◌≡◌, refl, ◌∙◌, inl, inr, Bool, true, false, some,
  ◌==◌, if◌then◌else◌, Bool-cases, Option-cases, find, unique_violation, ok, err,
}
use open_conferences.Store.{Db}
use open_conferences.Store.Rows.{Conference, Paper}
use open_conferences.Store.Tables.{count_where, update_where}
use open_conferences.Store.Tables.Laws.{find-update_where, find_of_count, count_where-update_where}
use open_conferences.Submission.Queries.{
  max_corresponding_papers, submitted_papers, corresponds, corresponding_count,
}
use open_conferences.Submission.Submit.{
  assign_from, number_taken, is_unnumbered_draft, numbered, Corresponding, attempt,
}
use open_conferences.Tenancy.Conferences.{is_live, lock_open_cfp}
use open_conferences.Tenancy.Phase.{is_cfp_open, assert_cfp_open}

module _ (same_email : String → String → Bool) (now : ℕ) (p : Paper) (author : Corresponding) where
  -- The submitted papers that the author corresponds for in the paper's conference.
  abbrev pub submitted_for : Db → ℕ
  submitted_for db =
      count_where
        (corresponds same_email p.conference_id author.user_id author.email submitted_papers)
        db.papers

  -- A number was assigned: the author was below the limit, the number free, the call open, and
  -- the one unnumbered draft of the paper was updated.
  attempt_ok :
      (number : String) (db : Db) (q : Paper)
      → (attempt same_email now p author number db).0 ≡ ok (some q)
      → (submitted_for db < max_corresponding_papers)
        × (count_where (is_unnumbered_draft p.id) db.papers ≡ 1)
        × ((attempt same_email now p author number db).1 ≡ record db {
          papers = update_where (is_unnumbered_draft p.id) (numbered now number) db.papers;
        })
  unfolding attempt corresponding_count lock_open_cfp assert_cfp_open
  attempt_ok number db q h = elim (Option-cases (find (is_live p.conference_id) db.conferences)) [
    | inl gone ↦ ground arith
    | inr (c, e) ↦ (ground arith, ground arith, ground arith)
  ]

  attempt-within_limit :
      (number : String) (db : Db) (q : Paper)
      → (attempt same_email now p author number db).0 ≡ ok (some q)
      → submitted_for (attempt same_email now p author number db).1 ≤ max_corresponding_papers
  attempt-within_limit number db q h =
      let (below, one, after) = attempt_ok number db q h in
      rw after (
        omega (
          arith,
          count_where-update_where
              (corresponds same_email p.conference_id author.user_id author.email submitted_papers)
              (is_unnumbered_draft p.id) (numbered now number) db.papers,
        ))

  -- Whatever numbers are drawn and however often, a paper that gets its number leaves its
  -- corresponding author with at most two submitted papers in the conference.
  pub assign_from-within_limit :
      (draw : ℕ → String) (i left : ℕ) (db : Db) (q : Paper)
      → (assign_from same_email now p author draw i left db).0 ≡ ok q
      → submitted_for (assign_from same_email now p author draw i left db).1
        ≤ max_corresponding_papers
  unfolding assign_from
  assign_from-within_limit draw i zero db q h = cc
  assign_from-within_limit draw i (suc zero) db q h =
      ground (arith, attempt-within_limit (draw i) db q)
  assign_from-within_limit draw i (suc (suc k)) db q h = ground (
    arith,
    attempt-within_limit (draw i) db q,
    assign_from-within_limit draw (suc i) (suc k) (attempt same_email now p author (draw i) db).1 q,
  )

  -- What the loop needs besides a free number: the call is open, the author is below the limit,
  -- and the paper has one unnumbered draft.
  pub record IsReady (db : Db) : Type 0 where
    pub conference : Conference
    pub is_found : find (is_live p.conference_id) db.conferences ≡ some conference
    pub is_open : is_cfp_open conference now ≡ true
    pub below : submitted_for db < max_corresponding_papers
    pub one_draft : count_where (is_unnumbered_draft p.id) db.papers ≡ 1

  attempt_taken :
      (number : String) (db : Db)
      → IsReady db
      → number_taken p.conference_id number db.papers ≡ true
      → attempt same_email now p author number db ≡ (err unique_violation, db)
  unfolding attempt corresponding_count lock_open_cfp assert_cfp_open
  attempt_taken number db r t = ground arith

  numbered_found :
      (number : String) (db : Db)
      → IsReady db
      → (q : Paper) × (find
            (λ q. q.id == p.id)
            (update_where (is_unnumbered_draft p.id) (numbered now number) db.papers)
          ≡ some q)
  numbered_found number db r =
      let (x, e) =
        find_of_count (is_unnumbered_draft p.id) (λ q. q.id == p.id) db.papers (λ x h. ground arith)
          (omega (arith, r.one_draft)) in
      (
        if is_unnumbered_draft p.id x then numbered now number x else x,
        find-update_where (is_unnumbered_draft p.id) (numbered now number) (λ q. q.id == p.id)
              db.papers (λ x. refl)
            ∙ rw e,
      )

  attempt_free :
      (number : String) (db : Db)
      → IsReady db
      → number_taken p.conference_id number db.papers ≡ false
      → (q : Paper) × ((attempt same_email now p author number db).0 ≡ ok (some q))
  unfolding attempt corresponding_count lock_open_cfp assert_cfp_open
  attempt_free number db r t = let (q, e) = numbered_found number db r in (q, ground (arith, e))

  shift : (i k : ℕ) → i + suc k ≡ suc i + k
  shift i k = omega arith

  -- If the conference is found and its call is open, the corresponding author is below the limit, and
  -- the paper has exactly one draft without a number, then the loop returns a paper as soon as one of
  -- the numbers that it has left to draw is free.
  pub assign_from_free :
      (draw : ℕ → String) (k i left : ℕ) (db : Db)
      → IsReady db
      → number_taken p.conference_id (draw (i + k)) db.papers ≡ false
      → k < left
      → (q : Paper) × ((assign_from same_email now p author draw i left db).0 ≡ ok q)
  unfolding assign_from
  assign_from_free draw k i zero db r free lt = absurd (omega arith)
  assign_from_free draw zero i (suc left) db r free lt =
      let here : number_taken p.conference_id (draw i) db.papers ≡ false =
        rw (add-zero i) at free in
      let (q, e) = attempt_free (draw i) db r here in (q, ground (arith, e))
  assign_from_free draw (suc k) i (suc zero) db r free lt = absurd (omega arith)
  assign_from_free draw (suc k) i (suc (suc left)) db r free lt =
      let later : number_taken p.conference_id (draw (suc i + k)) db.papers ≡ false =
        rw (shift i k) at free in
      elim (Bool-cases (number_taken p.conference_id (draw i) db.papers)) [
        | inl taken ↦
            let (q, e) = assign_from_free draw k (suc i) (suc left) db r later (omega arith) in
            (q, ground (arith, attempt_taken (draw i) db r taken, e))
        | inr free_here ↦
            let (q, e) = attempt_free (draw i) db r free_here in (q, ground (arith, e))
      ]
