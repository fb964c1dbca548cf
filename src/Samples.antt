-- ===== src/Samples.antt =====
-- A small conference that the tests run on: one open call, a draft, a paper under review.
use open_conferences.Shared.{ℕ, true, false, Option, none, some, [], ◌∷◌}
use open_conferences.Store.{Db}
use open_conferences.Store.Rows.{
  Recommendation, ReviewContent, Review, reviewer, Scope, Conference, cfp_open, FeeSchedule,
  Audience, Timing, early, Membership, Authorship, Paper, PaperStatus, under_review, PaperVersion,
  VersionKind, clean, ReviewRound, Assignment, assigned, Registration, RegistrationStatus, Payment,
  captured, initial, student, created, decision_made, Decision, accept,
}

abbrev pub no_rows : Db
no_rows = record {
  conferences = [];
  users = [];
  memberships = [];
  tracks = [];
  papers = [];
  versions = [];
  rounds = [];
  assignments = [];
  bids = [];
  conflicts = [];
  reviews = [];
  decisions = [];
  rebuttals = [];
  registrations = [];
  payments = [];
  verifications = [];
  audit = [];
  outbox = [];
}

abbrev fees : Audience → Timing → Option ℕ
fees student early = some 10000
fees student _ = some 15000
fees _ early = some 20000
fees _ _ = some 25000

abbrev pub schedule : FeeSchedule
schedule = record {
  currency = "USD";
  matrix = fees;
  early_bird_ends_at = some 200;
  registration_deadline_at = some 300;
  additional_paper_minor = some 5000;
  domestic_inr_per_usd = some 83500000;
}

abbrev pub call : Conference
call = record {
  id = 1;
  organization_id = 2;
  status = cfp_open;
  cfp_opens_at = some 10;
  cfp_closes_at = some 100;
  review_due_at = some 150;
  rebuttal_due_at = some 160;
  registration_due_at = some 300;
  fee_schedule = some schedule;
  minimum_reviews = some 2;
  review_config = record { score_dimensions = []; require_confidence = false };
  version = 3;
  deleted = false;
}

abbrev author_row : ℕ → Authorship
author_row user = record {
  user_id = some user;
  is_corresponding = true;
  full_name = "Ada";
  email = "ada@example.org";
  affiliation = none;
}

abbrev pub paper_of : ℕ → PaperStatus → Option ℕ → Paper
paper_of id status current = record {
  id = id;
  organization_id = 2;
  conference_id = 1;
  track_id = 3;
  submitted_by_id = 20;
  current_version_id = current;
  title = "T";
  abstract_text = "A";
  keywords = [];
  status = status;
  submission_number = none;
  submitted_at = none;
  version = 4;
  authorships = author_row 20 ∷ [];
}

abbrev pub draft_paper : Paper
draft_paper = paper_of 5 PaperStatus.draft (some 7)

abbrev pub reviewed_paper : Paper
reviewed_paper = paper_of 6 under_review none

abbrev pub clean_version : PaperVersion
clean_version = record {
  id = 7;
  paper_id = 5;
  kind = VersionKind.submission;
  scan_status = clean;
  created_at = 20;
}

abbrev pub round : ReviewRound
round = record {
  id = 30;
  organization_id = 2;
  conference_id = 1;
  paper_id = 6;
  round_number = 1;
  review_due_at = some 150;
  rebuttal_due_at = some 160;
  revision_due_at = none;
  reviews_released_at = none;
  version = 0;
}

abbrev pub assignment : Assignment
assignment = record {
  id = 40;
  conference_id = 1;
  round_id = 30;
  paper_id = 6;
  reviewer_user_id = 21;
  status = assigned;
  due_at = none;
}

abbrev pub opinion : ReviewContent
opinion = record {
  scores = [];
  recommendation = some Recommendation.accept;
  confidence = none;
  comments_to_authors = some "Good";
  comments_to_chairs = none;
}

abbrev pub review : Review
review = record {
  id = 55;
  conference_id = 1;
  assignment_id = 40;
  round_id = 30;
  paper_id = 6;
  reviewer_user_id = 21;
  content = opinion;
  author_visible = false;
  submitted_at = some 120;
  pending_edit = none;
  version = 2;
}

abbrev pub reviewing_member : Membership
reviewing_member = record {
  id = 60;
  user_id = 22;
  organization_id = 2;
  conference_id = some 1;
  scope = Scope.conference;
  roles = record { id = 61; role = reviewer } ∷ [];
}

abbrev pub registration : Registration
registration = record {
  id = 50;
  organization_id = 2;
  conference_id = 1;
  paper_id = 6;
  user_id = some 20;
  audience = Audience.regular;
  locked_timing = none;
  billing_country = some "US";
  billing_name = none;
  billing_address = none;
  billing_affiliation = none;
  is_additional_paper = false;
  regular_amount_due_minor = none;
  amount_due_minor = 20000;
  currency = "USD";
  status = RegistrationStatus.pending;
  version = 1;
  window_opens_at = 100;
  deadline_at = 300;
  additional_grace_until = none;
}

abbrev pub order : Payment
order = record {
  id = 70;
  organization_id = 2;
  registration_id = 50;
  provider = "razorpay";
  provider_order_id = some "order_1";
  provider_payment_id = none;
  status = created;
  amount_minor = 20000;
  currency = "USD";
  kind = initial;
  refund_of_payment_id = none;
  idempotency_key = none;
  request_reason = none;
  created_at = 110;
}

abbrev pub captured_order : Payment
captured_order = record order { status = captured; provider_payment_id = some "pay_1" }

-- The acceptance of the reviewed paper, released.
abbrev pub acceptance : Decision
acceptance = record {
  id = 80;
  conference_id = 1;
  paper_id = 6;
  round_id = 30;
  decided_by_id = 21;
  outcome = accept;
  rationale = none;
  notified_at = some 90;
  created_at = 80;
}

abbrev pub conference_db : Db
conference_db = record no_rows {
  conferences = call ∷ [];
  memberships = reviewing_member ∷ [];
  papers = draft_paper ∷ reviewed_paper ∷ [];
  versions = clean_version ∷ [];
  rounds = round ∷ [];
  assignments = assignment ∷ [];
  registrations = registration ∷ [];
}

-- The paper is accepted and the order for its registration is open.
abbrev pub accepted_db : Db
accepted_db = record conference_db {
  papers = draft_paper ∷ record reviewed_paper { status = decision_made } ∷ [];
  decisions = acceptance ∷ [];
  payments = order ∷ [];
}

abbrev pub paid_db : Db
paid_db = record accepted_db { payments = captured_order ∷ [] }
