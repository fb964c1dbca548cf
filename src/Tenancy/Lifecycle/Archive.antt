-- ===== src/Tenancy/Lifecycle/Archive.antt =====
-- Archiving is final, over any sequence of transition requests.
use open_conferences.Shared.{==-sound}
use open_conferences.Shared.{
  ℕ, ◌≡◌, refl, ap, ◌∙◌, inl, inr, true, Option, some, List, [], ◌∷◌, arith, ◌==◌, if◌then◌else◌,
  Bool-cases, find, find_sound, Result-cases,
}
use open_conferences.Store.{Db}
use open_conferences.Store.Rows.{RoleKind, Conference, ConferenceStatus, archived}
use open_conferences.Store.Tables.{update_where}
use open_conferences.Store.Tables.Laws.{find-update_where}
use open_conferences.Tenancy.Phase.{effective_conference_status}
use open_conferences.Tenancy.Conferences.{is_live}
use open_conferences.Tenancy.Lifecycle.Transitions.{
  Permitted, transition_ok, transition_error_unchanged,
}
use open_conferences.Tenancy.Lifecycle.{may_move, moved, transition}

-- A request for a transition, with the instant at which it is served.
pub record Request : Type 0 where
  pub now : ℕ
  pub actor : ℕ
  pub conference_id : ℕ
  pub target : ConferenceStatus
  pub roles : List RoleKind
  pub expected : Option ℕ

unfoldable pub serve : List Request → Db → Db
serve [] db = db
serve (q ∷ qs) db =
    serve qs (transition q.now q.actor q.conference_id q.target q.roles q.expected db).1

abbrev pub HasStatus : ℕ → ConferenceStatus → Db → Type 0
HasStatus id status db =
    (c : Conference) × (find (is_live id) db.conferences ≡ some c) × (c.status ≡ status)

may_move-archived :
    (now : ℕ) (c : Conference) (target : ConferenceStatus)
    → c.status ≡ archived
    → may_move c.status (effective_conference_status c now) target ≡ true
    → target ≡ archived
unfolding may_move effective_conference_status
may_move-archived now c target s h = ground arith

found_after :
    (id k : ℕ) (target : ConferenceStatus) (rows : List Conference) (c : Conference)
    → find (is_live id) rows ≡ some c
    → find (is_live id) (update_where (λ r. r.id == k) (moved target) rows)
      ≡ some (if c.id == k then moved target c else c)
found_after id k target rows c found =
    find-update_where (λ r. r.id == k) (moved target) (is_live id) rows (λ x. refl) ∙ rw found

same_row :
    (id k : ℕ) (rows : List Conference) (c d : Conference)
    → find (is_live id) rows ≡ some c
    → find (is_live k) rows ≡ some d
    → (c.id == k) ≡ true
    → c ≡ d
same_row id k rows c d found found' same =
    let named : c.id ≡ id = ground (arith, find_sound (is_live id) rows c found) in
    let ids : id ≡ k = omega (arith, ==-sound c.id k same) in
    let at_id : find (is_live id) rows ≡ some d = rw ids found' in cc

-- A permitted move of the conference `k` keeps the status of the archived conference `id`.
moved-archived :
    (now id k : ℕ) (target : ConferenceStatus) (roles : List RoleKind) (expected : Option ℕ)
    (rows : List Conference) (c d : Conference)
    → find (is_live id) rows ≡ some c
    → c.status ≡ archived
    → find (is_live k) rows ≡ some d
    → Permitted now target roles expected d
    → (c' : Conference) × (find (is_live id) (update_where (λ r. r.id == k) (moved target) rows)
        ≡ some c')
      × (c'.status ≡ archived)
moved-archived now id k target roles expected rows c d found s found' permitted =
    elim (Bool-cases (c.id == k)) [
      | inl same ↦ (
        moved target c,
        found_after id k target rows c found ∙ ap some (rw same),
        may_move-archived now c target s
            (rw (same_row id k rows c d found found' same) permitted.allowed),
      )
      | inr other ↦ (c, found_after id k target rows c found ∙ ap some (rw other), s)
    ]

transition-archived :
    (q : Request) (id : ℕ) (db : Db)
    → HasStatus id archived db
    → HasStatus id archived
        (transition q.now q.actor q.conference_id q.target q.roles q.expected db).1
transition-archived q id db (c, found, s) =
    elim (Result-cases
      (transition q.now q.actor q.conference_id q.target q.roles q.expected db).0) [
        | inl (e, refused) ↦
            rw
              (transition_error_unchanged q.now q.actor q.conference_id q.target q.roles q.expected
                db refused)
              (c, found, s)
        | inr (c', done) ↦
            let (d, found', permitted, _, rows) =
              transition_ok q.now q.actor q.conference_id q.target q.roles q.expected db done in
            rw rows (
              moved-archived q.now id q.conference_id q.target q.roles q.expected db.conferences c d
                found s found' permitted)
      ]

-- An archived conference stays archived, whatever transitions of whatever conferences are
-- requested, by whom and when.
pub serve-archived :
    (qs : List Request) (id : ℕ) (db : Db)
    → HasStatus id archived db
    → HasStatus id archived (serve qs db)
unfolding serve
serve-archived [] id db h = h
serve-archived (q ∷ qs) id db h =
    serve-archived qs id (transition q.now q.actor q.conference_id q.target q.roles q.expected db).1
      (transition-archived q id db h)
