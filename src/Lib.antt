-- ===== src/Lib.antt =====
-- A model of the affiliate panel's withdrawals, link rules, link pools and link visibility, with the
-- theorems that make them correct.
--
-- The back end (backend-vexxa/src/modules) pays affiliates what their houses owe them. An
-- affiliate asks for a withdrawal (`WithdrawalService.create`), an admin approves it, which calls
-- the payment gateway (`approveAndDispatch`), rejects it (`updateStatus`) or pays it by hand
-- (`markPaidManually`); the gateway tells the outcome by events (`handleGatewayWebhookEvent`),
-- which a job asks for when they do not come (`reconcileStuckProcessing`). Partners keep a ledger
-- of their own users' withdrawals (`createForExternal`, `setStatusForExternal`). A house gives a
-- link and its CPA by a rule that an admin writes (`validateHouseLinkRule`) and that is applied to
-- the affiliate and the inviter (`CpaResolutionService.resolveCpa`); the rule may require links in other houses
-- (`LinkDependencyService.checkRequiredLinks`). The link itself comes from a spreadsheet of free links,
-- at once (`tryAssign` of the house's assignment service) or by a job (`backfillPending`). The service
-- of requests puts these together (`create`), and an admin or the inviter may decide by hand (`update`,
-- `approveDealRequest`, `setManualCpa`). Requests that came before a house had its rule are served
-- later (`runBackfill`, `autoSnapshotOldRequests`, `reprocessRequest`). What links an affiliate sees depends on its
-- agreements (`filterLinksForActiveAgreements`).
--
-- Files, by the code they follow (withdrawal/ stands for backend-vexxa/src/modules/withdrawal/):
--   Common                 the libraries' names, tests, lists and integers that all parts share
--   Withdrawal/PinbetLimit withdrawal/domain/pinbet-withdrawal-limit.ts: what a Pinbet house may pay
--   Withdrawal/Calendar, Withdrawal/Frequency
--                          withdrawal/domain/withdrawal-frequency.ts: the days a house pays on
--   Withdrawal/Types, Withdrawal/Rows
--                          the tables of backend-vexxa/prisma/schema.prisma, and Prisma's queries
--   Withdrawal/Create, Withdrawal/External, Withdrawal/Manage, Withdrawal/Approve,
--   Withdrawal/Webhook, Withdrawal/Reconcile
--                          withdrawal/application/withdrawal.service.ts, one function per method
--   Withdrawal/Gateway     backend-vexxa/src/modules/payment-gateway: balance check and answers
--   Withdrawal/Lifecycle   all calls as one type, and what any sequence of them keeps
--   Withdrawal/Payout      approvals cut into their database calls, as interleaved steps
--   Withdrawal/Samples     data for runs of the model
--   Link/Types, Link/Tiers, Link/Cpa
--                          backend-vexxa/src/modules/link-request: the CPA that a rule gives
--   Link/Cycle, Link/Validation
--                          link-request/application/link-rule-validation.ts: which rules are accepted
--   Link/Dependency        link-request/application/link-dependency.service.ts: the links a rule requires
--   Pool/Types, Pool/Houses, Pool/Commit, Pool/Assign
--                          backend-vexxa/src/modules/<house>-link-pool/application/
--                          <house>-assignment.service.ts: `tryAssign` of nine houses. The services are
--                          copies of one another; what they differ in is a `PoolHouse`
--   Pool/Backfill          <house>-link-pool/application/<house>-scheduler.service.ts: `backfillPending`
--   Request/Types, Request/Steps, Request/Campaign, Request/Resolve, Request/Create,
--   Request/Writes, Request/Review
--                          link-request/application/link-request.service.ts: creation of requests and
--                          the decisions on them, with the helpers that find a campaign and write links
--   Request/Backfill       link-request/application/link-backfill.service.ts: old requests, by one call for
--                          a house, by a job that stores CPAs, and one by one
--   User/Visibility        user/application/membership-visibility.ts: the links an affiliate sees
-- Each component's theorems stand in its child modules, its runs and instances in its Tests.
--
-- The state is one `Store`: the rows of withdrawals, day releases, users and gateway events, the
-- transfers that the gateway was asked for, and the effects that are fired and forgotten
-- (notifications, outgoing webhooks, audit records). A call takes the store and gives its result
-- and the next store; an exception is an `Error`. What other services answer is an argument: the
-- balance of DashboardBalanceService, the house's row, the CPA count and the fee setting (`Env`),
-- the gateway's balance, its answer to a transfer and its payout status. One call of the database
-- is one function of the store, and a transaction under the advisory lock is one too.
--
-- The pools have a state of their own, `Db`: the tables of links and of link requests. An assignment
-- takes it with a `World`: Redis's answers to the tries of the lock, the spreadsheet, the time, and
-- what other processes write to the tables at each moment between two database calls (`others`); the
-- transaction is one function. Who holds which lock is not in the model, so that theorems about
-- assignments that run alone say so in their hypotheses.
--
-- The service of requests keeps a `Desk`: those tables, the log of assignments and what was sent. What
-- it only reads (deals, houses, rules, accounts, the answer of the eligibility service) is an `Office`.
-- Other processes write while `create` waits, from the check for a pending request to the insert
-- (`others` of the office), and while a link is assigned; the checks before that are one read. The
-- columns of a request's snapshot that only tell who invited and by which rule are left out.
--
-- CPAs are in ten-thousandths, the scale of their column. Amounts are whole cents, times are
-- milliseconds of local time, dates are of the Gregorian calendar. Loops are structural: the
-- search of 62 days is recursion on the days left, which is enough for every proper weekday or
-- monthly window, and the reconciliation is recursion on the rows it found. The search for
-- circular dependencies has fuel for its depth, one for each slug that the rules name.
--
-- Not modelled: floating-point amounts that are not whole cents, raw JSON snapshots, bank columns,
-- receipts, the text of messages and their cut at 1000 characters, the unique constraint on the
-- gateway's id (a clash is an exception, and is in the interleaved steps only as an approval that
-- ends without storing the answer), the deals of kind FORM, the cache of rules, the alert on nearly
-- empty pools, the two houses whose pools follow a sequence (sportingbet), the HTTP clients, and the other modules of the back end.
pub mod Common
pub mod Withdrawal
pub mod Link
pub mod Pool
pub mod Request
pub mod User
