-- ===== src/Lib.antt =====
-- The grid trading platform: a worker runs bots that buy and sell on the rails of a price grid, and a
-- portfolio manager places those bots.
--
-- How the parts interact: on every price the bot's engine asks the grid strategy for the rails and for
-- the rails that the move crosses, asks the grid decision for the one signal that the price confirms,
-- has the strategy build an order intent for it, has the risk manager admit that intent, and after the
-- fill has the lot accounting change the lots of the bot. Each of these services is a module here.
--
--   Domain          packages/core/src/domain/{enums,types,portfolio-types}.ts
--   PriceTrigger    packages/core/src/utils/{math,price-trigger}.ts
--   GridStrategy    packages/core/src/services/grid-strategy-service.ts
--     Levels, Lots, Sizing, Intent have its operations (calculateLevels, detectCrossedLevels; the
--     cycles of the open lots; buildSellPlan; buildOrderIntent), Rails, Profit, Entry its theorems
--   GridDecision    packages/core/src/services/grid-decision-service.ts
--     Confirmation (getConfirmedSignal), Pending (resolvePendingSignal, the signals out of range)
--   RiskManager     packages/core/src/services/risk-manager-service.ts; Admission has its theorems
--   LotAccounting   packages/core/src/services/lot-accounting-service.ts
--     Remains and Provenance (a sell), Purchase (a buy, and the fills that are refused), Summary
--     (calculateNetSellPnl and summarizeLots)
--   PortfolioPolicy packages/core/src/services/portfolio-policy-service.ts: Inputs, Validation
--     (validateInput), Envelope, Decision (evaluatePortfolioPolicy), Initial, with Justified and History
--   CapitalLedger   packages/db/src/repositories/portfolio-repository.ts: the tables (Tables), the
--     transactions (Allocation, Reservations, Commitments, Fills, Settlement), Runs of
--     them with the sums that they keep (Held, Audit), Guards
--   LotExit         packages/core/src/services/lot-exit-commitment-service.ts
--   Recenter        packages/core/src/services/{recenter-policy,flat-recenter}-service.ts; Defence and
--     Safety have the theorems
--   SymbolRunScheduler apps/worker/src/symbol-run-scheduler.ts: the steps between two awaits (Slots), with
--     Order and Exclusion
--   ShadowHash      packages/db/src/repositories/shadow-observation-repository.ts: canonicalize and
--     canonicalShadowHash, with Fixpoint and Reordering; its insertion of a job is in ShadowOutbox/Steps
--   ShadowOutbox    packages/db/src/repositories/shadow-jev-outbox-repository.ts: the rows (Rows), claim
--     (Claim), complete and fail (Report), sequences of them (Steps), their invariant (Leases, Sound,
--     Runs), the contract of one job (Machine, Moved, Refinement), and Progress
--   Execution       packages/core/src/adapters/{execution-adapter,paper-execution-adapter}.ts (Adapter,
--     Paper) and packages/core/src/services/{execution-service,execution-cost-model-service}.ts
--     (Service, CostModel), with Isolation and Records
--   Indicators      packages/core/src/services/indicator-service.ts: the loops (Series), computeEma,
--     computeAtr and computeAdx (Trend), the moving windows (Windows), compute (Service); Prefixes and
--     Causality have the theorems
--   PositionLots    packages/core/src/utils/position-lots.ts; Selection has the theorems
--   ExecutionRecoveryPoller apps/worker/src/execution-recovery-poller.ts: its steps (Polling), with
--     Activity and Rounds
--   Common, Float, Host, Samples: shared helpers, the two parameters below, test data
--
-- What a method keeps in `this` or gets as its input object is a record here, with the fields that the
-- code reads. An early return is a branch, an exception is a value of a result type, `null` and
-- `undefined` are `none`. A `for` loop is a fold or a recursion on its list. All recursion is
-- structural: there is no fuel.
--
-- Parameters. The numbers of JavaScript are a type `D` with the record `Float D` of their operations;
-- what a theorem needs of them is a field of `IsIeee D`, and Float/Fixed has an instance with eight
-- decimals and one value that is not a number, for which the laws hold. The runtime (the text of numbers
-- and dates, the calendar day, localeCompare) is the record `Host` with its law `IsRuntime`, which
-- Host/Binary fills. The package decimal.js is the record `Decimals`. The square root and the logarithm
-- of Math are the record `MathFunctions`, the digest of node:crypto is a record with its hash, and
-- an adapter of the execution, a store of the observations and the engine of a policy are records of
-- their operations. The database's order of ids and what a jsonb column gives back are in the record
-- `Store` of the outbox.
--
-- Representation. A date is its milliseconds since the epoch, a count or an index or a duration is a
-- natural number, and a JavaScript object with computed keys is the list of its entries. A column of
-- type Decimal(30, 10) is an integer of 10^-10, and an increment by a number adds what the column
-- would keep of that number.
--
-- Not modelled: the engine's own orchestration, the repositories of bots and trades, the creation,
-- adoption and revision of bands, the capture of observations, replays in the laboratory, the scores
-- of regimes, ranges and rebounds, HTTP and blockchain calls, the web dashboard.
pub mod Common
pub mod Float
pub mod Host
pub mod Domain
pub mod PriceTrigger
pub mod PortfolioPolicy
pub mod LotExit
pub mod SymbolRunScheduler
pub mod Recenter
pub mod CapitalLedger
pub mod GridStrategy
pub mod Samples
pub mod LotAccounting
pub mod RiskManager
pub mod GridDecision
pub mod ShadowHash
pub mod ShadowOutbox
pub mod Execution
pub mod Indicators
pub mod PositionLots
pub mod ExecutionRecoveryPoller
