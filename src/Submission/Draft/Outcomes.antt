-- ===== src/Submission/Draft/Outcomes.antt =====
-- What the creation of a draft does.
use open_conferences.Shared.{
  ==-refl, ℕ, ◌≤◌, String, ◌≡◌, inl, inr, Bool, true, false, ◌&&◌, Option, none, some, List, [],
  ◌∷◌, arith, ◌==◌, Bool-cases, Option-cases, find, find_sound, ok, Result-cases,
}
use open_conferences.Store.{Db}
use open_conferences.Store.Rows.{Track, Paper, User, RoleKind}
use open_conferences.Store.Tables.{earliest_by, insert_row, count_where}
use open_conferences.Store.Tables.Laws.{count_where-insert_row}
use open_conferences.Submission.Draft.{
  is_live_track, find_track, resolve_submission_track, CreateInput, new_paper, insert_draft, create,
  FreshIds,
}
use open_conferences.Submission.Queries.{
  max_corresponding_papers, open_papers, corresponds, corresponding_count, is_draft,
}
use open_conferences.Tenancy.Conferences.{lock_open_cfp, is_live, load_conference}
use open_conferences.Tenancy.Phase.{assert_cfp_open}

module _ (same_email : String → String → Bool) where
  -- The papers that the user corresponds for in the conference and that are not closed.
  abbrev pub open_for : ℕ → ℕ → Db → ℕ
  open_for conference_id user db =
      count_where (corresponds same_email conference_id user none open_papers) db.papers

  insert_draft_ok :
      (id now organization_id conference_id track : ℕ) (u : User) (input : CreateInput) (db : Db)
      (p : Paper)
      → (insert_draft same_email id now organization_id conference_id track u input db).0 ≡ ok p
      → (p ≡ new_paper id organization_id conference_id track u input)
        × ((insert_draft same_email id now organization_id conference_id track u input db).1
            ≡ record db { papers = insert_row p db.papers })
        × (open_for conference_id u.id
              (insert_draft same_email id now organization_id conference_id track u input db).1
            ≤ max_corresponding_papers)
  unfolding insert_draft corresponding_count lock_open_cfp assert_cfp_open
  insert_draft_ok id now organization_id conference_id track u input db p h =
      elim (Option-cases (find (is_live conference_id) db.conferences)) [
        | inl gone ↦ ground arith
        | inr (c, found) ↦ (
          ground arith,
          ground arith,
          ground (
            arith,
            count_where-insert_row (corresponds same_email conference_id u.id none open_papers)
                (new_paper id organization_id conference_id track u input) db.papers,
          ),
        )
      ]

find_at :
    (p : Track → Bool) (xs : List Track) (t : Track)
    → earliest_by (λ (t : Track). t.created_at) p xs ≡ some t
    → (y : Track) × (find (λ x. x.id == t.id && p x) xs ≡ some y)
find_at p [] t h = cc
find_at p (x ∷ xs) t h = elim (Bool-cases (x.id == t.id && p x)) [
  | inl here ↦ (x, ground arith)
  | inr later ↦ elim (Option-cases (earliest_by (λ (t : Track). t.created_at) p xs)) [
    | inl none_left ↦ absurd (ground (arith, ==-refl x.id))
    | inr (s, e) ↦
        let (y, found) = find_at p xs t (ground (arith, ==-refl x.id)) in (y, ground (arith, found))
  ]
]

inserted_track :
    (conference_id : ℕ) (t : Track) (xs : List Track)
    → is_live_track conference_id t ≡ true
    → (y : Track) × (find (λ x. x.id == t.id && is_live_track conference_id x) (insert_row t xs)
        ≡ some y)
inserted_track conference_id t [] live = (t, ground (arith, ==-refl t.id))
inserted_track conference_id t (x ∷ xs) live =
    elim (Bool-cases (x.id == t.id && is_live_track conference_id x)) [
      | inl here ↦ (x, ground arith)
      | inr later ↦ let (y, e) = inserted_track conference_id t xs live in (y, ground (arith, e))
    ]

-- The track that a new paper gets is one of the conference that was not deleted.
resolved :
    (new_id now conference_id : ℕ) (requested : Option ℕ) (db : Db) (k : ℕ)
    → (resolve_submission_track new_id now conference_id requested db).0 ≡ ok k
    → (t : Track) × (find_track conference_id k
          (resolve_submission_track new_id now conference_id requested db).1
        ≡ some t)
unfolding resolve_submission_track
resolved new_id now conference_id (some id) db k h =
    elim (Option-cases (find_track conference_id id db)) [
      | inl missing ↦ ground arith
      | inr (t, found) ↦
          let same : k ≡ id = ground (
            arith,
            find_sound (λ x. x.id == id && is_live_track conference_id x) db.tracks t found,
          ) in
          (t, rw same (ground arith))
    ]
resolved new_id now conference_id none db k h =
    elim (Option-cases
      (earliest_by (λ (t : Track). t.created_at) (is_live_track conference_id) db.tracks)) [
        | inr (t, found) ↦
            let (y, e) = find_at (is_live_track conference_id) db.tracks t found in
            (y, ground (arith, e))
        | inl no_track ↦
            let (y, e) =
              inserted_track conference_id
                (record {
                  id = new_id;
                  conference_id = conference_id;
                  created_at = now;
                  deleted = false;
                })
                db.tracks (ground (arith, ==-refl conference_id)) in
            (y, ground (arith, e))
      ]

resolve-papers :
    (new_id now conference_id : ℕ) (requested : Option ℕ) (db : Db)
    → (resolve_submission_track new_id now conference_id requested db).1.papers ≡ db.papers
unfolding resolve_submission_track
resolve-papers new_id now conference_id (some id) db = ground arith
resolve-papers new_id now conference_id none db = ground arith

-- What a created paper leaves behind.
pub record Created (same_email : String → String → Bool) (now user conference_id : ℕ) (p : Paper)
    (before after : Db) : Type 0 where
  pub drafted : is_draft p.status ≡ true
  pub owned : (p.submitted_by_id ≡ user) × (p.conference_id ≡ conference_id)
  pub added : after.papers ≡ insert_row p before.papers
  pub within_limit : open_for same_email conference_id user after ≤ max_corresponding_papers
  pub in_track : (t : Track) × (find_track conference_id p.track_id after ≡ some t)

-- A paper that is created is a draft of its creator, of the conference and of a track of the
-- conference that was not deleted; it is the one paper that is added; and its creator corresponds
-- for at most two papers of the conference that are not closed.
pub create_ok :
    (same_email : String → String → Bool) (fresh : FreshIds) (now user conference_id : ℕ)
    (input : CreateInput) (roles : List RoleKind) (db : Db) (p : Paper)
    → (create same_email fresh now user conference_id input roles db).0 ≡ ok p
    → Created same_email now user conference_id p db
        (create same_email fresh now user conference_id input roles db).1
unfolding create load_conference assert_cfp_open
create_ok same_email fresh now user conference_id input roles db p h =
    elim (Option-cases (find (is_live conference_id) db.conferences)) [
      | inl gone ↦ ground arith
      | inr (c, live) ↦ elim (Option-cases (find (λ (u : User). u.id == user) db.users)) [
        | inl unknown ↦ ground arith
        | inr (u, found) ↦
            let named : u.id ≡ user =
              ground (arith, find_sound (λ (u : User). u.id == user) db.users u found) in
            elim (Result-cases
              (resolve_submission_track fresh.track now conference_id input.track_id db).0) [
                | inl (e, untracked) ↦ ground arith
                | inr (k, tracked) ↦
                    let mid =
                      (resolve_submission_track fresh.track now conference_id input.track_id
                        db).1 in
                    let (t, in_mid) =
                      resolved fresh.track now conference_id input.track_id db k tracked in
                    let made : (insert_draft same_email fresh.paper now c.organization_id
                          conference_id k u input mid).0
                        ≡ ok p =
                      ground arith in
                    let (new, after, few) =
                      insert_draft_ok same_email fresh.paper now c.organization_id conference_id k u
                        input mid p made in
                    let kept = resolve-papers fresh.track now conference_id input.track_id db in
                    record {
                      drafted = ground arith;
                      owned = (ground arith, ground arith);
                      added = ground arith;
                      within_limit = ground arith;
                      in_track = (t, ground arith);
                    }
              ]
      ]
    ]
