-- ===== src/Tenancy/Lifecycle/Transitions.antt =====
-- What one status transition does.
use open_conferences.Shared.{
  ℕ, ◌+◌, ◌≤◌, ◌<◌, ◌≡◌, refl, ◌⊎◌, inl, inr, true, false, Option, none, some, List, [], ◌∷◌, arith,
  ◌==◌, Option-cases, find, Exception, ok, err,
}
use mathlib.Core.Path.{subst}
use open_conferences.Shared.{sym, ap, ◌∙◌}
use open_conferences.Store.{Db}
use open_conferences.Store.Tables.{update_where}
use open_conferences.Store.Rows.{RoleKind, Conference, ConferenceStatus, organizer, cfp_open}
use open_conferences.Tenancy.Roles.{max_role_rank}
use open_conferences.Tenancy.Phase.{effective_conference_status, is_cfp_open}
use open_conferences.Tenancy.Conferences.{is_live}
use open_conferences.Tenancy.Lifecycle.{
  may_move, lacks_window, is_past, check_transition, moved, transition,
}

-- What must hold of the stored conference for a transition to go through.
pub record Permitted (now : ℕ) (target : ConferenceStatus) (roles : List RoleKind)
    (expected : Option ℕ) (c : Conference) : Type 0 where
  pub ranked : max_role_rank (organizer ∷ []) ≤ max_role_rank roles
  pub allowed : may_move c.status (effective_conference_status c now) target ≡ true
  pub current : (expected ≡ none) ⊎ (expected ≡ some (c.version + 1))
  pub published :
      target ≡ cfp_open
      → (lacks_window c.cfp_opens_at c.cfp_closes_at ≡ false)
        × (is_past c.cfp_closes_at now ≡ false)

check_transition_ok :
    (now : ℕ) (target : ConferenceStatus) (roles : List RoleKind) (expected : Option ℕ)
    (c : Conference)
    → max_role_rank (organizer ∷ []) ≤ max_role_rank roles
    → (check_transition now target expected c) ≡ ok tt
    → Permitted now target roles expected c
unfolding check_transition
check_transition_ok now target roles none c r h = record {
  ranked = r;
  allowed = ground arith;
  current = inl refl;
  published = λ e. ground arith;
}
check_transition_ok now target roles (some v) c r h = record {
  ranked = r;
  allowed = ground arith;
  current = inr (ground arith);
  published = λ e. ground arith;
}

-- The two ends of a window that is published at `now`, and the call open between them.
abbrev pub PublishedWindow : ℕ → Conference → Type 0
PublishedWindow now c =
    (opens : ℕ) × (closes : ℕ) × (c.cfp_opens_at ≡ some opens)
    × (c.cfp_closes_at ≡ some closes)
    × (opens < closes)
    × (now < closes)
    × ((t : ℕ) → opens ≤ t → t < closes → is_cfp_open c t ≡ true)

published_window :
    (now : ℕ) (c : Conference) (x y : Option ℕ)
    → c.cfp_opens_at ≡ x
    → c.cfp_closes_at ≡ y
    → lacks_window x y ≡ false
    → is_past y now ≡ false
    → PublishedWindow now (moved cfp_open c)
unfolding lacks_window is_past is_cfp_open
published_window now c none y p q w late = cc
published_window now c (some x) none p q w late = cc
published_window now c (some x) (some y) p q w late =
    (x, y, p, q, ground arith, ground arith, λ t a b. ground arith)

module _ (now actor id : ℕ) (target : ConferenceStatus) (roles : List RoleKind)
    (expected : Option ℕ) (db : Db) where
  -- A refused transition leaves the whole database as it was.
  pub transition_error_unchanged :
      {e : Exception}
      → (transition now actor id target roles expected db).0 ≡ err e
      → (transition now actor id target roles expected db).1 ≡ db
  unfolding transition
  transition_error_unchanged h = ground arith

  pub transition_ok :
      {c' : Conference}
      → (transition now actor id target roles expected db).0 ≡ ok c'
      → (c : Conference) × (find (is_live id) db.conferences ≡ some c)
        × Permitted now target roles expected c
        × (c' ≡ moved target c)
        × ((transition now actor id target roles expected db).1.conferences
            ≡ update_where (λ r. r.id == id) (moved target) db.conferences)
  unfolding transition
  transition_ok {c'} h = elim (Option-cases (find (is_live id) db.conferences)) [
    | inl gone ↦ ground arith
    | inr (c, e) ↦ (
      c,
      e,
      check_transition_ok now target roles expected c (ground arith) (ground arith),
      ground arith,
      ground arith,
    )
  ]

  -- A conference that was moved to the open call has both ends of its window, the opening before
  -- the closing and the closing still ahead, and the call is open throughout that window.
  pub transition-publishes :
      {c' : Conference}
      → target ≡ cfp_open
      → (transition now actor id target roles expected db).0 ≡ ok c'
      → PublishedWindow now c'
  transition-publishes {c'} e h =
      let (c, found, permitted, same, _) = transition_ok h in
      subst (PublishedWindow now) (ap (λ t. moved t c) (sym e) ∙ sym same) (
        published_window now c c.cfp_opens_at c.cfp_closes_at refl refl (permitted.published e).0
          (permitted.published e).1)
