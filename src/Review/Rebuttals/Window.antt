-- ===== src/Review/Rebuttals/Window.antt =====
-- When a rebuttal may be written, and that a paper has one in a round.
use open_conferences.Shared.{
  ==-refl, ℕ, ◌≤◌, ◌<◌, ◌≡◌, refl, ap, ◌∙◌, inl, inr, Bool, true, false, ◌&&◌, Option, none, some,
  List, [], ◌∷◌, arith, ◌==◌, is_some, Option-cases, any, find, ok, Result-cases,
}
use open_conferences.Store.{Db}
use open_conferences.Review.Rebuttals.{
  open_window, rebuttable_paper, RebuttalInput, is_corresponding_author, resolve_rebuttal_round,
  is_late, is_rebuttal_of, rewritten, new_rebuttal, is_stored, store_rebuttal, is_decided,
  write_rebuttal, check_window, submit_rebuttal,
}
use open_conferences.Review.Rounds.{lock_review_round}
use open_conferences.Store.Rows.{Paper, ReviewRound, Rebuttal}
use open_conferences.Store.Tables.{count_where, update_where}
use open_conferences.Store.Tables.Laws.{count_where-insert_row}
use open_conferences.Submission.Queries.{is_closed, load_paper_for_mutation}
use open_conferences.Tenancy.Conferences.{load_conference}

count_kept :
    (q p : Rebuttal → Bool) (f : Rebuttal → Rebuttal) (xs : List Rebuttal)
    → ((x : Rebuttal) → q (f x) ≡ q x)
    → count_where q (update_where p f xs) ≡ count_where q xs
count_kept q p f [] keep = refl
count_kept q p f (x ∷ xs) keep = ground (arith, keep x, count_kept q p f xs keep)

found_counts :
    (q : Rebuttal → Bool) (xs : List Rebuttal) (b : Rebuttal)
    → find q xs ≡ some b
    → 0 < count_where q xs
found_counts q [] b h = cc
found_counts q (x ∷ xs) b h = ground (arith, found_counts q xs b)

none_counts : (q : Rebuttal → Bool) (xs : List Rebuttal) → any q xs ≡ false → count_where q xs ≡ 0
none_counts q [] h = refl
none_counts q (x ∷ xs) h = ground (arith, none_counts q xs)

module _ (id now user conference_id paper_id : ℕ) (input : RebuttalInput) where
  store_rebuttal-once :
      (round_id : ℕ) (db : Db) (existing : Option Rebuttal) (b : Rebuttal)
      → find (is_rebuttal_of paper_id round_id) db.rebuttals ≡ existing
      → count_where (is_rebuttal_of paper_id round_id) db.rebuttals ≤ 1
      → (store_rebuttal id now user conference_id paper_id round_id existing input db).0 ≡ ok b
      → count_where
          (is_rebuttal_of paper_id round_id)
          (store_rebuttal id now user conference_id paper_id round_id existing input db).1.rebuttals
        ≡ 1
  unfolding store_rebuttal
  store_rebuttal-once round_id db (some old) b found few h = ground (
    arith,
    found_counts (is_rebuttal_of paper_id round_id) db.rebuttals old found,
    count_kept (is_rebuttal_of paper_id round_id)
        (is_stored conference_id paper_id round_id input.version old) (rewritten now input.body)
        db.rebuttals (λ x. refl),
  )
  store_rebuttal-once round_id db none b found few h =
      let new = new_rebuttal id now user conference_id paper_id round_id input.body in
      ground (
        arith,
        ==-refl paper_id,
        ==-refl round_id,
        none_counts (is_rebuttal_of paper_id round_id) db.rebuttals,
        count_where-insert_row (is_rebuttal_of paper_id round_id) new db.rebuttals,
      )

  -- The round that a rebuttal is written in, when it is written.
  pub record IsOpenRound (round_id : ℕ) (db : Db) : Type 0 where
    pub round : ReviewRound
    pub is_found :
        find (λ (r : ReviewRound). r.id == round_id && r.conference_id == conference_id) db.rounds
        ≡ some round
    pub released : is_some round.reviews_released_at ≡ true
    pub in_time : is_late now round.rebuttal_due_at ≡ false
    pub undecided : is_decided conference_id round_id db ≡ false

  write_rebuttal_ok :
      (round_id : ℕ) (db : Db) (existing : Option Rebuttal) (b : Rebuttal)
      → (write_rebuttal id now user conference_id paper_id round_id existing input db).0 ≡ ok b
      → IsOpenRound round_id db
        × ((store_rebuttal id now user conference_id paper_id round_id existing input db).0 ≡ ok b)
        × ((write_rebuttal id now user conference_id paper_id round_id existing input db).1
            ≡ (store_rebuttal id now user conference_id paper_id round_id existing input db).1)
  unfolding write_rebuttal lock_review_round
  write_rebuttal_ok round_id db existing b h =
      elim (Option-cases (
        find (λ (r : ReviewRound). r.id == round_id && r.conference_id == conference_id)
          db.rounds)) [
            | inl gone ↦ ground arith
            | inr (r, found) ↦ (
              record {
                round = r;
                is_found = found;
                released = ground arith;
                in_time = ground arith;
                undecided = ground arith;
              },
              ground arith,
              ground arith,
            )
          ]

  -- What an accepted rebuttal has passed, and the write that it comes to.
  record Accepted (db : Db) (b : Rebuttal) : Type 0 where
    paper : Paper
    round : ReviewRound
    is_found :
        find (λ q. q.id == paper_id && q.conference_id == conference_id) db.papers ≡ some paper
    corresponds : is_corresponding_author paper user ≡ true
    not_closed : is_closed paper.status ≡ false
    resolved : resolve_rebuttal_round conference_id paper_id db ≡ some round
    wrote :
        (write_rebuttal id now user conference_id paper_id round.id
          (find (is_rebuttal_of paper_id round.id) db.rebuttals)
          input
          db).0
        ≡ ok b
    kept :
        (submit_rebuttal id now user conference_id paper_id input db).1.rebuttals
        ≡ (write_rebuttal id now user conference_id paper_id round.id
            (find (is_rebuttal_of paper_id round.id) db.rebuttals)
            input
            db).1.rebuttals

  rebuttable_paper_ok :
      (db : Db) (p : Paper)
      → (rebuttable_paper user conference_id paper_id db).0 ≡ ok p
      → (find (λ q. q.id == paper_id && q.conference_id == conference_id) db.papers ≡ some p)
        × (is_corresponding_author p user ≡ true)
        × (is_closed p.status ≡ false)
  unfolding rebuttable_paper load_conference load_paper_for_mutation
  rebuttable_paper_ok db p h = (ground arith, ground arith, ground arith)

  rebuttable_paper-reads : (db : Db) → (rebuttable_paper user conference_id paper_id db).1 ≡ db
  unfolding rebuttable_paper load_conference load_paper_for_mutation
  rebuttable_paper-reads db = ground arith

  check_window-reads : (r : ReviewRound) (db : Db) → (check_window now paper_id r db).1 ≡ db
  unfolding check_window
  check_window-reads r db = ground arith

  open_window-reads : (db : Db) → (open_window now conference_id paper_id db).1 ≡ db
  unfolding open_window
  open_window-reads db = elim (Option-cases (resolve_rebuttal_round conference_id paper_id db)) [
    | inl closed ↦ ground arith
    | inr (r, e) ↦ ground (arith, check_window-reads r db)
  ]

  open_window_ok :
      (db : Db) (r : ReviewRound)
      → (open_window now conference_id paper_id db).0 ≡ ok r
      → resolve_rebuttal_round conference_id paper_id db ≡ some r
  unfolding open_window
  open_window_ok db r h = ground arith

  submit_rebuttal-Accepted :
      (db : Db) (b : Rebuttal)
      → (submit_rebuttal id now user conference_id paper_id input db).0 ≡ ok b
      → Accepted db b
  unfolding submit_rebuttal
  submit_rebuttal-Accepted db b h =
      let paper_read = rebuttable_paper-reads db in
      let round_read = open_window-reads db in
      elim (Result-cases (rebuttable_paper user conference_id paper_id db).0) [
        | inl (e, refused) ↦ ground arith
        | inr (p, loaded) ↦ elim (Result-cases (open_window now conference_id paper_id db).0) [
          | inl (e, shut) ↦ ground arith
          | inr (r, at_round) ↦
              let (found, corresponding, active) = rebuttable_paper_ok db p loaded in
              record {
                paper = p;
                round = r;
                is_found = found;
                corresponds = corresponding;
                not_closed = active;
                resolved = open_window_ok db r at_round;
                wrote = ground arith;
                kept = ground arith;
              }
        ]
      ]

  -- If no round has more than one rebuttal of the paper, a rebuttal that is accepted is by a
  -- corresponding author of a paper that is not withdrawn, in a round whose reviews were released,
  -- that is not decided and whose date for rebuttals has not passed, and that round then has
  -- exactly one rebuttal of the paper.
  pub submit_rebuttal_ok :
      (db : Db) (b : Rebuttal)
      → ((k : ℕ) → count_where (is_rebuttal_of paper_id k) db.rebuttals ≤ 1)
      → (submit_rebuttal id now user conference_id paper_id input db).0 ≡ ok b
      → (p : Paper) × (r : ReviewRound) × (find
            (λ q. q.id == paper_id && q.conference_id == conference_id)
            db.papers
          ≡ some p)
        × (is_corresponding_author p user ≡ true)
        × (is_closed p.status ≡ false)
        × (resolve_rebuttal_round conference_id paper_id db ≡ some r)
        × IsOpenRound r.id db
        × (count_where
              (is_rebuttal_of paper_id r.id)
              (submit_rebuttal id now user conference_id paper_id input db).1.rebuttals
            ≡ 1)
  submit_rebuttal_ok db b few h =
      let a = submit_rebuttal-Accepted db b h in
      let existing = find (is_rebuttal_of paper_id a.round.id) db.rebuttals in
      let (open_round, stored, same) = write_rebuttal_ok a.round.id db existing b a.wrote in
      (
        a.paper,
        a.round,
        a.is_found,
        a.corresponds,
        a.not_closed,
        a.resolved,
        open_round,
        ap (count_where (is_rebuttal_of paper_id a.round.id))
              (a.kept ∙ ap (λ (d : Db). d.rebuttals) same)
            ∙ store_rebuttal-once a.round.id db existing b refl (few a.round.id) stored,
      )
