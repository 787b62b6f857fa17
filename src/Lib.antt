-- ===== src/Lib.antt =====
-- The policy assignment system: which policies an employee has on a date, by the rules of a
-- category and the facts known of the employee, and why.
--
-- Resolver models the package resolver/, which is pure. `Resolver.Resolve.resolve` is `Resolve` of
-- resolver/resolve.go with the helpers it calls:
--   Resolver.Value      resolver/value.go: values of type `any`, comparables, `evalClause`
--   Resolver.Ast        resolver/ast.go: predicates, `ParsePredicate`, `Matches`; its child
--                       Validate has `Validate` and `checkValue`
--   Resolver.Types      resolver/types.go: the data of a resolution
--   Resolver.Facts      resolver/facts.go: `DeriveAttributes`
--   Resolver.Conflicts  resolver/specificity.go and resolver/conflicts.go: `Specificity`,
--                       `Compare`, `SortMatched`, `lossReason`
--   Resolver.Trace      resolver/trace.go: `buildEvaluations`, `shortAnswer`
--   Resolver.Selection  resolver/resolve.go: the switch of `Resolve` on the strategy
--   Resolver.Resolve    resolver/resolve.go: `Resolve`, `validateCategory`
-- The other children of these modules hold theorems and are named for them.
--
-- Repo models the tables that internal/repo/ keeps in the database, with the statements of gen/db/
-- that it calls:
--   Repo.Outbox         internal/repo/outbox.go and gen/db/outbox.sql.go: the events to process
--   Repo.Facts          internal/repo/facts.go and gen/db/facts.sql.go: the facts of the employees with
--                       their dates, `AddFact` and `FactsAt`
--   Repo.Projection     internal/repo/projection.go and gen/db/projection.sql.go: the assignments that
--                       are kept, `Materialize` and `AssignedPolicies`
--   Repo.Segments       internal/repo/segments.go and gen/db/segments.sql.go: the segments and
--                       their members
--   Repo.Rules          internal/repo/rules.go and gen/db/rules.sql.go: the rules and their versions,
--                       `CreateRule`, `DeleteRule` and `EffectiveRules`
--   Repo.Traces         internal/repo/resolve.go and gen/db/traces.sql.go: the decision traces,
--                       `PersistTrace` and `LatestTrace`
--   Repo.Transitions    gen/db/projection.sql.go: the facts and rules that start on a day
--   Repo.Registry       internal/repo/db.go and internal/repo/categories.go: the attribute
--                       definitions, what a process reads of them when it starts, and the policies
--   Repo.Store          the tables that decisions read as one state, with internal/repo/categories.go, the employees of
--                       internal/repo/facts.go, and `ResolveForEmployee` of internal/repo/resolve.go
-- A statement takes the table and gives the new one, with the constraints of db/migrations/. The
-- operations on the store also say what an error leaves behind.
--
-- Reconciler models internal/reconciler/, which keeps the projection up to date:
--   Reconciler.Batch     internal/reconciler/reconciler.go: `ProcessBatch` and `drain`, over any way
--                        to handle an event, any rows that other workers hold, and any order in
--                        which the database returns the claimed rows
--   Reconciler.Employee  internal/reconciler/reconciler.go: `ReconcileEmployee`,
--                        `materializeAndTrace` and `ReconcileRuleChange`
--   Reconciler.Segments  internal/reconciler/reconciler.go: `ReconcileSegmentChange`
--   Reconciler.Events    internal/reconciler/reconciler.go: `processEvent`, and with it the worker of
--                        `ProcessBatch`
--   Reconciler.Sweeper   internal/reconciler/sweeper.go: `Run` of the sweeper
--   Reconciler.Scheduler internal/reconciler/sweeper.go: `Tick` of the scheduler
--
-- Api models internal/api/, the HTTP handlers, from the decoded body to the response:
--   Api                 internal/api/api.go: the errors with their status and code
--   Api.Readiness       internal/api/handlers.go: `readinessFor`
--   Api.Diff            internal/api/handlers.go: `resolveAllCategories` and `diffResolutions`
--   Api.Employees       internal/api/handlers.go: the handlers under /employees
--   Api.Facts           internal/api/handlers.go: `handleAddFact`
--   Api.Rules           internal/api/rules.go: `handleCreateRule`
--   Api.Preview         internal/api/rules.go: `handlePreview`
--
-- Config models internal/config/config.go with internal/utils/env.go: `Load` and `LoadOrDefault`.
--
-- Base holds what the modules share. A string is the list of its bytes, and `<` and
-- `strings.Compare` are bytewise. An integer is unbounded where the source only compares it. A
-- finite `float64` is a multiple of 2^-1074, with the order and the rounding of integers. A map is
-- an association list whose first entry for a key counts. A query orders strings bytewise; no
-- theorem depends on the collation. A date is parsed as `time.Parse` does for the layout
-- 2006-01-02, and a day is the number of days since a fixed one. `sort.Slice`, which is
-- not stable, is an insertion sort: where the order has no ties, which the theorems ask for, the
-- sorted slice is unique. A duration is in nanoseconds and stops at 2^63 - 1, as `Sub` does.
--
-- An error or a reason that the source formats into a message is a constructor with the values that
-- the message prints; its wording is not modelled. A slice index out of range is the error
-- `panicked`. `drain` takes fuel; more than the events in the queue is enough. `decimal` takes fuel
-- for 20 digits; an int64 has 19. All other loops run over lists.
--
-- The predicates that a caller brings go into JSONB columns, where the database keeps a text of its
-- own for the same value: `CreateRule` and `CreateSegment` take the function that gives it, `jsonb`.
--
-- Not modelled are the encoding and decoding of JSON and the parsing of durations, which are
-- parameters, the rendering of values in messages, failures of the database's connection, the
-- router of internal/api/, logging, and the processes under cmd/ but for the configuration of the
-- worker. A call of the reconciler reads the clock once.
pub mod Api
pub mod Base
pub mod Config
pub mod Reconciler
pub mod Repo
pub mod Resolver
