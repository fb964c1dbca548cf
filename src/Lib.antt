-- ===== src/Lib.antt =====
-- A model of the core of OpenConferences, a system for running academic conferences, and its
-- theorems. The program is a web service (apps/api) over a PostgreSQL database (packages/db).
-- Authors draft and submit papers to a conference while its call for papers is open; coordinators
-- assign reviewers and decide in review rounds; authors of accepted papers register and pay.
--
-- The parts and their files:
--   Shared       the names that all files use: Boolean tests, lists, signed amounts (Shared/Int),
--                and the handlers of requests (Shared/Handler).
--   Store        the database: the rows of packages/db/prisma/schema.prisma (Store/Rows), the
--                queries of the client over a table (Store/Tables), and the audit log.
--   Tenancy      apps/api/src/tenancy: roles (role-hierarchy.ts), the phase of a conference
--                (packages/schemas/src/conference-phase.ts, cfp-window.ts), its transitions
--                (lifecycle.service.ts), the grants of roles (role-grant.service.ts) and the roles
--                in effect (membership-roles.ts).
--   Submission   apps/api/src/submission/papers.service.ts: access to papers, `create` and
--                `update`, `submit` and `assignSubmissionNumber`, `withdraw` and `deleteDraft`.
--   Billing      apps/api/src/billing: paid-state.ts, fee-resolver.ts, `openRegistration`
--                (registrations.service.ts) and, of payments.service.ts, the transactions of
--                `refund` and `processCapture`, and `processRefundEntity`.
--                Billing/Checkout has the transaction of `initiatePayment` and the order at the
--                provider; Billing/Provider has the calls of the provider around the other
--                transactions: `verifyPayment`, `handleWebhook`, `executeRefundIntent`, `refund`
--                and `runReconciliation` (Billing/Provider/Reconcile). Billing/Sweep has
--                the sweeps of unpaid registrations: `runDiscardSweep`
--                (discard-sweep.service.ts) and `processDiscardSweepJob`
--                (apps/worker/src/discard-sweep.ts).
--   Review       apps/api/src/review: review-stage.ts, coi-check.service.ts,
--                `tryCreateAssignment`, `applyDecisionInTransaction`, the rounds
--                (rounds.service.ts) and `submitRebuttal`.
--                reviews.service.ts (Review/Reviews): `saveReview`, `submitReview`, `releaseReviews`
--                and what `listReviewsForPaper` selects. Review/Announce has `makeDecision`,
--                `bulkDecide`, `notifyDecisions` and the release of decisions.
--   Common       apps/api/src/common/pagination/cursor.ts.
--   Messaging    apps/api/src/messaging/template-renderer.ts.
--   Samples      a small conference, on which the tests of each part run.
--
-- The parts meet in the database: drafts and submissions read the phase of the conference, a
-- withdrawal declines assignments and cancels a registration, a decision cancels a registration
-- too, a capture looks at the decision on the paper. Each definition has the name of the function
-- that it models, in snake case; where a function is long, its guards and its writes are
-- definitions of their own.
--
-- The conventions of the model:
--   - The state is one record of tables, each a list of rows in the order of creation. A handler
--     is a function from the database to a result (a value or the exception that is thrown) and
--     the database after it; `transaction` undoes what was written before a throw.
--   - Ids are numbers, instants are milliseconds, amounts are minor units; what is paid in total,
--     captures less refunds, is signed. The rate of exchange is a number of millionths, and the
--     product is rounded exactly, where the code rounds a product of floating-point numbers.
--   - A run is one request, with no other between its transactions. A theorem on one transaction
--     holds of every database, so it covers that transaction in any order of whole transactions.
--   - What is not code of the repository is a parameter: `same_email` (the comparison of the
--     database without regard to case), `normalize` (trim and lower case), `find_many` (a query by
--     cursor, with what it gives as hypotheses), `draw` (the submission numbers that are
--     generated), `create_order` (the order at the payment provider), `Gateway` (what the provider
--     answers in one run), the generated ids and the present instant `now`. A reconciliation takes
--     rows in the order of `updatedAt`, a column that is left out: the order is a parameter too.
--   - The loop that draws submission numbers has its own bound, five attempts; the other loops run
--     over lists. Three functions have fuel: the search for variables in a template has as much as
--     the template has characters, the reading of a list page after page as many rounds as there
--     are rows and one, and the reading of an escaped text as much as the text was long; theorems
--     state that this is enough.
--   - A text that is walked, as a template, is the list of the code points of its characters. A
--     score of a review is a whole number.
--
-- Not modelled: row-level security, the mapping of rows to responses, the texts and differences in
-- the audit log, invoices and mail after a capture, the web interface, the other jobs of the
-- worker, the validation schemas, authentication, integrations, analytics.
pub mod Shared
pub mod Store
pub mod Tenancy
pub mod Submission
pub mod Billing
pub mod Common
pub mod Messaging
pub mod Review
pub mod Samples
