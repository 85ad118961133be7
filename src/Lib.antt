-- ===== src/Lib.antt =====
-- A verification library of mongokit, a repository layer over mongoose and MongoDB.
--
-- What is modelled, file by file. Paths are the repository's, under src/.
--
--   Pagination/*   pagination: page numbers and limits (utils/limits.ts), sorts (utils/sort.ts),
--                  cursors (utils/cursor.ts), the filter behind a cursor (utils/filter.ts), and
--                  `paginate` and `stream` of PaginationEngine.ts, which put them together.
--   Lock/*         lock/index.ts, the lock adapter: `tryAcquire`, `release`, `inspect`.
--   Lease/*        plugins/lease.plugin.ts: `lease`, `extend`, `release`.
--   Idempotency/*  plugins/idempotency-store.plugin.ts: `claimKey` and the calls that end a claim.
--   Claim/*        `claim`, `claimVersion` and `applyTransition` of Repository.ts, and
--                  utils/id-resolution.ts.
--   Cache/*        utils/memory-cache.ts.
--   Operations/*   operations.ts, the registry of operations, and plugins/append-only.plugin.ts.
--   FilterIr/*     filter/compile.ts: portable filters compiled to queries.
--   IndexHint/*    pagination/utils/index-hint.ts.
--   Sanitizer/*    query/parser/pipeline-sanitizer.ts.
--   SoftDelete/*   plugins/soft-delete.plugin.ts.
--   IdChunks/*     utils/id-chunks.ts.
--   Aggregate/*    actions/aggregate-ir/keyset.ts, the paging of `aggregatePaginate` and the scope of
--                  policy plugins in aggregations (Repository.ts).
--   Purge/*        actions/purge.ts and actions/archive.ts: writes to all rows of a filter, chunk by
--                  chunk, and what a whole run of them does.
--   ImmutableStates/*  plugins/immutable-states.plugin.ts: the hooks that guard frozen rows.
--   Tenant/*       plugins/multi-tenant.plugin.ts: the hook that scopes every operation.
--
-- Under these: Prelude (lists, outcomes), Js (values and objects of JavaScript) and Mongo. A
-- function of the source is named as there, in snake case; an options object is a record; a `throw`
-- is the outcome `throws`; `Date.now()` and random tokens are arguments.
--
-- MongoDB, mongoose and @classytic/repo-core are not in the repository. What a filter selects
-- (`Mongo.Matching`) and what a command does (`Mongo.Server.Server`) are interfaces with the
-- documented behaviour; the definitions and the theorems take them as parameters. Mongo/Memory is a
-- small evaluator of filters and a store in memory, which meet both interfaces and at which the
-- theorems are applied to concrete data. Each command is atomic, and a call of the source that sends
-- several is a sequence of them.
--
-- Bounds: numbers are natural numbers or integers without an upper bound, times are milliseconds. Fuel
-- is the number of calls of a client that follows cursors (`Keyset.Walk.walk`,
-- `Paginate.Walk.all_pages`) or that repeats a chunk
-- (`Purge.Walk.walk`, `Purge.Archive.archive`); more calls than rows are enough, which is part of the
-- theorems. The fuel of `IdChunks.slices` is the number of ids.
--
-- Not modelled: the CRUD calls and hooks of the repository, the query parser, the stages of
-- aggregations and the remaining plugins, which mostly hand arguments to the driver; projections,
-- population, sessions and logs.
pub mod Prelude
pub mod Js
pub mod Mongo
pub mod Aggregate
pub mod Cache
pub mod Claim
pub mod FilterIr
pub mod IdChunks
pub mod Idempotency
pub mod ImmutableStates
pub mod IndexHint
pub mod Lease
pub mod Lock
pub mod Operations
pub mod Pagination
pub mod Purge
pub mod Sanitizer
pub mod SoftDelete
pub mod Tenant
