-- ===== src/Store/Rows.antt =====
-- The rows of packages/db/prisma/schema.prisma that the handlers read and write, with the
-- columns that they use. An id (a UUID) is a number, an instant is a number of milliseconds,
-- an amount is in minor units.
use open_conferences.Shared.{ℕ, String, Bool, Option, List}
use open_conferences.Shared.Int.{ℤ}

pub data RoleKind : Type 0 where
  platform_admin org_admin organizer chair reviewer author : RoleKind

pub data Scope : Type 0 where
  organization conference : Scope

pub data ConferenceStatus : Type 0 where
  draft cfp_open cfp_closed reviewing decisions finalization completed archived : ConferenceStatus

pub data PaperStatus : Type 0 where
  draft submitted under_review decision_made camera_ready withdrawn withdrawn_nonpayment :
      PaperStatus

pub data ScanStatus : Type 0 where
  pending_scan clean infected : ScanStatus

pub data VersionKind : Type 0 where
  submission revision camera_ready supplementary : VersionKind

pub data AssignmentStatus : Type 0 where
  assigned accepted declined completed replaced : AssignmentStatus

pub data Outcome : Type 0 where
  accept reject minor_revision major_revision : Outcome

pub data BidValue : Type 0 where
  eager yes_bid maybe_bid no_bid conflict : BidValue

pub data Audience : Type 0 where
  regular student : Audience

pub data Timing : Type 0 where
  early regular : Timing

pub data RegistrationStatus : Type 0 where
  pending awaiting_verification additional_payment_required paid cancelled refunded
        discarded_nonpayment :
      RegistrationStatus

pub data PaymentStatus : Type 0 where
  created authorized captured failed refunded partially_refunded : PaymentStatus

pub data PaymentKind : Type 0 where
  initial additional refund : PaymentKind

pub data VerificationStatus : Type 0 where
  pending approved rejected clarification_requested : VerificationStatus

-- An idempotency key: one that a client sends, or the key of a refund request, which is built of
-- the registration's id and version.
pub data Key : Type 0 where
  client : String → Key
  refund_request : ℕ → ℕ → Key

-- A fee schedule that `billingFeeScheduleSchema` accepts. A cell of the matrix may be missing;
-- `domestic_inr_per_usd` is the rate in millionths.
pub record FeeSchedule : Type 0 where
  pub currency : String
  pub matrix : Audience → Timing → Option ℕ
  pub early_bird_ends_at : Option ℕ
  pub registration_deadline_at : Option ℕ
  pub additional_paper_minor : Option ℕ
  pub domestic_inr_per_usd : Option ℕ

-- A dimension of the scores in the stored `reviewConfig`: a plain name, as `reviewConfigSchema`
-- has them, or an object with a key and the ends of a range.
pub data ScoreDimension : Type 0 where
  plain_name : String → ScoreDimension
  dimension : String → Option ℤ → Option ℤ → ScoreDimension

pub record ReviewConfig : Type 0 where
  pub score_dimensions : List ScoreDimension
  pub require_confidence : Bool

-- `fee_schedule` is `none` where the schema refuses the stored JSON; `minimum_reviews` is `none`
-- where `reviewConfig` holds no such integer.
pub record Conference : Type 0 where
  pub id : ℕ
  pub organization_id : ℕ
  pub status : ConferenceStatus
  pub cfp_opens_at : Option ℕ
  pub cfp_closes_at : Option ℕ
  pub review_due_at : Option ℕ
  pub rebuttal_due_at : Option ℕ
  pub registration_due_at : Option ℕ
  pub fee_schedule : Option FeeSchedule
  pub minimum_reviews : Option ℕ
  pub review_config : ReviewConfig
  pub version : ℕ
  pub deleted : Bool

pub record User : Type 0 where
  pub id : ℕ
  pub email : String
  pub name : String
  pub two_factor_enabled : Bool
  pub deleted : Bool

pub record RoleGrant : Type 0 where
  pub id : ℕ
  pub role : RoleKind

pub record Membership : Type 0 where
  pub id : ℕ
  pub user_id : ℕ
  pub organization_id : ℕ
  pub conference_id : Option ℕ
  pub scope : Scope
  pub roles : List RoleGrant

pub record Track : Type 0 where
  pub id : ℕ
  pub conference_id : ℕ
  pub created_at : ℕ
  pub deleted : Bool

pub record Authorship : Type 0 where
  pub user_id : Option ℕ
  pub is_corresponding : Bool
  pub full_name : String
  pub email : String
  pub affiliation : Option String

pub record Paper : Type 0 where
  pub id : ℕ
  pub organization_id : ℕ
  pub conference_id : ℕ
  pub track_id : ℕ
  pub submitted_by_id : ℕ
  pub current_version_id : Option ℕ
  pub title : String
  pub abstract_text : String
  pub keywords : List String
  pub status : PaperStatus
  pub submission_number : Option String
  pub submitted_at : Option ℕ
  pub version : ℕ
  pub authorships : List Authorship

pub record PaperVersion : Type 0 where
  pub id : ℕ
  pub paper_id : ℕ
  pub kind : VersionKind
  pub scan_status : ScanStatus
  pub created_at : ℕ

pub record ReviewRound : Type 0 where
  pub id : ℕ
  pub organization_id : ℕ
  pub conference_id : ℕ
  pub paper_id : ℕ
  pub round_number : ℕ
  pub review_due_at : Option ℕ
  pub rebuttal_due_at : Option ℕ
  pub revision_due_at : Option ℕ
  pub reviews_released_at : Option ℕ
  pub version : ℕ

pub record Assignment : Type 0 where
  pub id : ℕ
  pub conference_id : ℕ
  pub round_id : ℕ
  pub paper_id : ℕ
  pub reviewer_user_id : ℕ
  pub status : AssignmentStatus
  pub due_at : Option ℕ

pub record Bid : Type 0 where
  pub paper_id : ℕ
  pub reviewer_user_id : ℕ
  pub value : BidValue

pub record ConflictOfInterest : Type 0 where
  pub conference_id : ℕ
  pub user_id : ℕ
  pub paper_id : Option ℕ
  pub with_user_id : Option ℕ

pub data Recommendation : Type 0 where
  strong_accept accept weak_accept borderline weak_reject reject strong_reject : Recommendation

-- What a reviewer writes: five columns of the row, and five fields of the edit that is kept aside.
pub record ReviewContent : Type 0 where
  pub scores : List (String × ℤ)
  pub recommendation : Option Recommendation
  pub confidence : Option ℕ
  pub comments_to_authors : Option String
  pub comments_to_chairs : Option String

pub record Review : Type 0 where
  pub id : ℕ
  pub conference_id : ℕ
  pub assignment_id : ℕ
  pub round_id : ℕ
  pub paper_id : ℕ
  pub reviewer_user_id : ℕ
  pub content : ReviewContent
  pub author_visible : Bool
  pub submitted_at : Option ℕ
  pub pending_edit : Option ReviewContent
  pub version : ℕ

pub record Decision : Type 0 where
  pub id : ℕ
  pub conference_id : ℕ
  pub paper_id : ℕ
  pub round_id : ℕ
  pub decided_by_id : ℕ
  pub outcome : Outcome
  pub rationale : Option String
  pub notified_at : Option ℕ
  pub created_at : ℕ

pub record Rebuttal : Type 0 where
  pub id : ℕ
  pub conference_id : ℕ
  pub paper_id : ℕ
  pub round_id : ℕ
  pub authored_by_user_id : ℕ
  pub body : String
  pub submitted_at : Option ℕ
  pub version : ℕ

pub record Registration : Type 0 where
  pub id : ℕ
  pub organization_id : ℕ
  pub conference_id : ℕ
  pub paper_id : ℕ
  pub user_id : Option ℕ
  pub audience : Audience
  pub locked_timing : Option Timing
  pub billing_country : Option String
  pub billing_name : Option String
  pub billing_address : Option String
  pub billing_affiliation : Option String
  pub is_additional_paper : Bool
  pub regular_amount_due_minor : Option ℕ
  pub amount_due_minor : ℕ
  pub currency : String
  pub status : RegistrationStatus
  pub version : ℕ
  pub window_opens_at : ℕ
  pub deadline_at : ℕ
  pub additional_grace_until : Option ℕ

pub record Payment : Type 0 where
  pub id : ℕ
  pub organization_id : ℕ
  pub registration_id : ℕ
  pub provider : String
  pub provider_order_id : Option String
  pub provider_payment_id : Option String
  pub status : PaymentStatus
  pub amount_minor : ℕ
  pub currency : String
  pub kind : PaymentKind
  pub refund_of_payment_id : Option ℕ
  pub idempotency_key : Option Key
  pub request_reason : Option String
  pub created_at : ℕ

pub record StudentVerification : Type 0 where
  pub registration_id : ℕ
  pub status : VerificationStatus
  pub scan_status : ScanStatus
  pub uploaded_by_id : ℕ
  pub created_at : ℕ

-- An entry of `audit_logs`: who, which action, on which entity.
pub record AuditEntry : Type 0 where
  pub actor_user_id : Option ℕ
  pub action : String
  pub entity_id : ℕ

-- A notification that was published, by its template, recipient and idempotency subject.
pub record Mail : Type 0 where
  pub template : String
  pub recipient : String
  pub subject_id : ℕ
