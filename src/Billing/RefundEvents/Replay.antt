-- ===== src/Billing/RefundEvents/Replay.antt =====
-- A refund event never makes more than one row of a refund, and settled refunds are final.
use mathlib.Core.Path.{subst}
use text.Mathlib.Text.{◌==◌ as str_eq}
use open_conferences.Shared.{
  ==-sound, ℕ, ◌≤◌, ◌<◌, String, ◌≡◌, refl, sym, ap, ◌∙◌, ◌⊎◌, inl, inr, Bool, true, false, not,
  ◌&&◌, Option, none, some, List, [], ◌∷◌, arith, ◌==◌, Bool-cases, Option-cases, any, find,
  find_sound, Exception, err,
}
use open_conferences.Store.{Db}
use open_conferences.Billing.PaidState.{is_captured, is_refund_kind}
use open_conferences.Billing.RefundEvents.{
  RefundEntity, EntityStatus, capture_for, is_invalid_entity, existing_refund, is_mismatch, is_done,
  is_settled, is_text, is_unknown, status_of, processed, failed_entity, pending, unknown, or_else,
  differs, differs_text, is_pending_entity, new_refund, settle_registration, settle_if_done,
  record_refund, process_refund_entity,
}
use open_conferences.Shared.Membership.{Mem, find-Mem}
use open_conferences.Store.Rows.{
  Payment, PaymentStatus, created, captured, failed, refund, Registration,
}
use open_conferences.Store.Tables.{update_where, insert_row}

-- A refused event changes nothing.
pub process_refund_entity_error_unchanged :
    (new_id now : ℕ) (provider : String) (entity : RefundEntity) (intent_id : Option ℕ) (db : Db)
    {e : Exception}
    → (process_refund_entity new_id now provider entity intent_id db).0 ≡ err e
    → (process_refund_entity new_id now provider entity intent_id db).1 ≡ db
unfolding process_refund_entity record_refund
process_refund_entity_error_unchanged new_id now provider entity intent_id db h = ground arith

settle_if_done-payments :
    (s : EntityStatus) (id : ℕ) (reg : Registration) (db : Db)
    → (settle_if_done s id reg db).payments ≡ db.payments
unfolding settle_registration
settle_if_done-payments s id reg db = ground arith

-- An event for a refund whose row is already refunded, or that failed while the event is an older
-- pending one, is acknowledged at most and changes nothing, whatever it says.
pub process_refund_entity-settled :
    (new_id now : ℕ) (provider : String) (entity : RefundEntity) (intent_id : Option ℕ) (db : Db)
    (p : Payment)
    → existing_refund provider entity intent_id db ≡ some p
    → is_settled p entity ≡ true
    → (process_refund_entity new_id now provider entity intent_id db).1 ≡ db
unfolding process_refund_entity record_refund
process_refund_entity-settled new_id now provider entity intent_id db p found settled = ground arith

-- The status of a refund that the provider reports.
abbrev pub reported_status : EntityStatus → PaymentStatus
reported_status pending = created
reported_status processed = PaymentStatus.refunded
reported_status failed_entity = failed
reported_status unknown = created

-- The stored payment that an event of a refund is about: a captured one of the provider with the
-- event's payment id, of at least its amount and of its currency; and the status that the event
-- gives to the refund is the reported one.
pub record IsRefunded (provider : String) (entity : RefundEntity) (rows : List Payment)
    (capture : Payment) : Type 0 where
  pub is_stored : Mem capture rows
  pub is_captured_row : capture.status ≡ captured
  pub no_refund : is_refund_kind capture.kind ≡ false
  pub same_provider : str_eq capture.provider provider ≡ true
  pub same_payment : is_text capture.provider_payment_id entity.payment_id ≡ true
  pub not_zero : 0 < entity.amount
  pub fits : entity.amount ≤ capture.amount_minor
  pub same_currency : str_eq entity.currency capture.currency ≡ true
  pub known : is_unknown entity.status ≡ false
  pub new_status : status_of entity.status ≡ reported_status entity.status

-- The stored refund that an event is recorded in: it is of the event's id, or of the intent that
-- the event or its caller names, of the same registration and amount, not of another payment or
-- with another id at the provider; and it is not done, nor failed while the event is pending.
pub record IsRecorded (entity : RefundEntity) (intent_id : Option ℕ) (rows : List Payment)
    (capture p : Payment) : Type 0 where
  pub is_stored : Mem p rows
  pub is_refund : p.kind ≡ refund
  pub named :
      (is_text p.provider_payment_id entity.id ≡ true)
      ⊎ (or_else intent_id entity.refund_intent_id ≡ some p.id)
  pub same_registration : p.registration_id ≡ capture.registration_id
  pub same_amount : p.amount_minor ≡ entity.amount
  pub same_capture : differs p.refund_of_payment_id capture.id ≡ false
  pub same_id : differs_text p.provider_payment_id entity.id ≡ false
  pub not_done : is_done p.status ≡ false
  pub not_stale : p.status ≡ failed → is_pending_entity entity.status ≡ false

-- A row for a refund that had none: of the event's amount, id and status, and of the payment that it
-- refunds.
pub record IsNewRefund (entity : RefundEntity) (capture row : Payment) : Type 0 where
  pub is_refund : row.kind ≡ refund
  pub same_amount : row.amount_minor ≡ entity.amount
  pub same_id : row.provider_payment_id ≡ some entity.id
  pub of_capture : row.refund_of_payment_id ≡ some capture.id
  pub same_registration : row.registration_id ≡ capture.registration_id
  pub same_status : row.status ≡ reported_status entity.status

-- The ways in which an event may change the payments.
pub data RefundWrite (provider : String) (entity : RefundEntity) (intent_id : Option ℕ)
    (before : List Payment) : List Payment → Type 0 where
  same :
      {after : List Payment} → after ≡ before → RefundWrite provider entity intent_id before after
  added :
      {after : List Payment} (capture row : Payment)
      → IsRefunded provider entity before capture
      → any
          (λ (p : Payment). str_eq p.provider provider && is_text p.provider_payment_id entity.id)
          before
        ≡ false
      → IsNewRefund entity capture row
      → after ≡ insert_row row before
      → RefundWrite provider entity intent_id before after
  changed :
      {after : List Payment} (capture p : Payment) (new : PaymentStatus)
      → IsRefunded provider entity before capture
      → IsRecorded entity intent_id before capture p
      → new ≡ reported_status entity.status
      → after
        ≡ update_where
            (λ q. q.id == p.id)
            (λ q. record q {
              provider_payment_id = some entity.id;
              refund_of_payment_id = some capture.id;
              status = new;
            })
            before
      → RefundWrite provider entity intent_id before after

capture_for-IsRefunded :
    (provider : String) (entity : RefundEntity) (db : Db) (c : Payment)
    → capture_for provider entity db ≡ some c
    → is_invalid_entity c entity ≡ false
    → IsRefunded provider entity db.payments c
unfolding capture_for is_invalid_entity
capture_for-IsRefunded provider entity db c h valid =
    let test = λ (p : Payment).
      str_eq p.provider provider
      && is_text p.provider_payment_id entity.payment_id
      && not (is_refund_kind p.kind)
      && is_captured p.status in
    let passes = find_sound test db.payments c h in
    record {
      is_stored = find-Mem test db.payments c h;
      is_captured_row = ground arith;
      no_refund = ground arith;
      same_provider = ground arith;
      same_payment = ground arith;
      not_zero = ground arith;
      fits = ground arith;
      same_currency = ground arith;
      known = ground arith;
      new_status = ground arith;
    }

none_named : (q : Payment → Bool) (ps : List Payment) → find q ps ≡ none → any q ps ≡ false
none_named q [] h = refl
none_named q (p ∷ ps) h = ground (arith, none_named q ps)

existing_refund-none :
    (provider : String) (entity : RefundEntity) (intent_id : Option ℕ) (db : Db)
    → existing_refund provider entity intent_id db ≡ none
    → any
        (λ (p : Payment). str_eq p.provider provider && is_text p.provider_payment_id entity.id)
        db.payments
      ≡ false
unfolding existing_refund
existing_refund-none provider entity intent_id db h =
    none_named
      (λ (p : Payment). str_eq p.provider provider && is_text p.provider_payment_id entity.id)
      db.payments (ground arith)

-- The row that is found for an event is a stored one, with its id or named by the intent.
existing_refund-named :
    (provider : String) (entity : RefundEntity) (intent_id : Option ℕ) (db : Db) (p : Payment)
    → existing_refund provider entity intent_id db ≡ some p
    → Mem p db.payments
      × ((is_text p.provider_payment_id entity.id ≡ true)
          ⊎ (or_else intent_id entity.refund_intent_id ≡ some p.id))
unfolding existing_refund
existing_refund-named provider entity intent_id db p h =
    let by_id =
      λ (q : Payment). str_eq q.provider provider && is_text q.provider_payment_id entity.id in
    elim (Option-cases (find by_id db.payments)) [
      | inr (q, found) ↦
          let same_row : q ≡ p = ground arith in
          let found' : find by_id db.payments ≡ some p = found ∙ ap some same_row in
          let passes = find_sound by_id db.payments p found' in
          (find-Mem by_id db.payments p found', inl (ground arith))
      | inl unlisted ↦ elim (Option-cases (or_else intent_id entity.refund_intent_id)) [
        | inl no_intent ↦ absurd (ground arith)
        | inr (id, named) ↦
            let found : find (λ (q : Payment). q.id == id) db.payments ≡ some p = ground arith in
            let same_id : p.id ≡ id =
              ==-sound p.id id (find_sound (λ (q : Payment). q.id == id) db.payments p found) in
            (
              find-Mem (λ (q : Payment). q.id == id) db.payments p found,
              inr (named ∙ ap some (sym same_id)),
            )
      ]
    ]

record_refund-RefundWrite :
    (new_id now : ℕ) (provider : String) (capture : Payment) (entity : RefundEntity)
    (reg : Registration) (existing : Option Payment) (intent_id : Option ℕ) (db : Db)
    → existing_refund provider entity intent_id db ≡ existing
    → IsRefunded provider entity db.payments capture
    → reg.id ≡ capture.registration_id
    → RefundWrite provider entity intent_id db.payments
        (record_refund new_id now provider capture entity reg existing db).1.payments
unfolding record_refund is_mismatch
record_refund-RefundWrite new_id now provider capture entity reg none intent_id db e c r =
    added capture (new_refund new_id now provider capture entity) c
      (existing_refund-none provider entity intent_id db e)
      (record {
        is_refund = refl;
        same_amount = refl;
        same_id = refl;
        of_capture = refl;
        same_registration = refl;
        same_status = c.new_status;
      })
      (settle_if_done-payments entity.status reg.id reg _)
record_refund-RefundWrite new_id now provider capture entity reg (some p) intent_id db e c r =
    elim (Bool-cases (is_mismatch capture reg.id p entity)) [
      | inl wrong ↦ same (ground arith)
      | inr right ↦ elim (Bool-cases (is_settled p entity)) [
        | inl settled ↦ same (ground arith)
        | inr unsettled ↦
            let (stored, named) = existing_refund-named provider entity intent_id db p e in
            changed capture p (status_of entity.status) c
              (record {
                is_stored = stored;
                is_refund = ground arith;
                named = named;
                same_registration = ==-sound p.registration_id reg.id (ground arith) ∙ r;
                same_amount = ground arith;
                same_capture = ground arith;
                same_id = ground arith;
                not_done = ground arith;
                not_stale = λ f. ground arith;
              })
              c.new_status
              (rw (right, unsettled) (settle_if_done-payments entity.status reg.id reg _))
      ]
    ]

-- The payments change under an event in one of three ways: not at all; by one appended refund of a
-- stored captured payment of the provider, of at most its amount, where no row has the refund's id;
-- or by recording the event on the rows with the id of one stored refund of the same registration
-- and amount, which the event or the intent names, and which was not yet refunded, nor failed while
-- the event is pending.
pub process_refund_entity-RefundWrite :
    (new_id now : ℕ) (provider : String) (entity : RefundEntity) (intent_id : Option ℕ) (db : Db)
    → RefundWrite provider entity intent_id db.payments
        (process_refund_entity new_id now provider entity intent_id db).1.payments
unfolding process_refund_entity
process_refund_entity-RefundWrite new_id now provider entity intent_id db =
    elim (Option-cases (capture_for provider entity db)) [
      | inl ignored ↦ same (ground arith)
      | inr (c, e) ↦ elim (Bool-cases (is_invalid_entity c entity)) [
        | inl invalid ↦ same (ground arith)
        | inr valid ↦ elim (Option-cases (find (λ r. r.id == c.registration_id) db.registrations)) [
          | inl gone ↦ same (ground arith)
          | inr (reg, f) ↦
              subst (RefundWrite provider entity intent_id db.payments) (sym (runs c reg e valid f))
                (record_refund-RefundWrite new_id now provider c entity reg
                  (existing_refund provider entity intent_id db) intent_id db refl
                  (capture_for-IsRefunded provider entity db c e valid)
                  (==-sound reg.id c.registration_id (
                    find_sound (λ (r : Registration). r.id == c.registration_id) db.registrations
                      reg f)))
        ]
      ]
    ]
  where
    runs :
        (c : Payment) (reg : Registration)
        → capture_for provider entity db ≡ some c
        → is_invalid_entity c entity ≡ false
        → find (λ r. r.id == c.registration_id) db.registrations ≡ some reg
        → (process_refund_entity new_id now provider entity intent_id db).1.payments
          ≡ (record_refund new_id now provider c entity reg
              (existing_refund provider entity intent_id db)
              db).1.payments
    runs c reg e valid f = ground arith
