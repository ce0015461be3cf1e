-- ===== src/Lib.antt =====
-- forge-sync keeps the repositories of GitHub and Forgejo namespaces in step: git refs, issues,
-- comments, pull requests, releases and secrets. Neither forge is privileged; what has changed on both
-- sides is recorded as a conflict and left alone. This library models its core and proves what keeps
-- data safe.
--
-- The parts and their files:
-- - Model, internal/model/model.go: the records that pass between the parts.
-- - Gitrefs/Policy, internal/gitrefs/policy.go: Plan turns the refs of two forges into pushes and
--   conflicts. Policy/Outcomes reads the loop as a relation, Policy/Effects says what a plan does to
--   each ref, Policy/Safety, Policy/Convergence and Policy/Divergence prove the results. `is_ancestor` is git's ancestry
--   check and may fail; `clock` is time.Now() for each ref. Go's maps are association lists, whose
--   keys may come in any order and even twice, and then the first counts.
-- - State, internal/state/store.go with the constraints of migrations/*.sql: the database is a record of
--   tables, each statement is a function that succeeds or changes nothing, and any statement may fail
--   for a reason of its own (`sqlite`). State/Db has the tables and statements, State/Mappings,
--   State/Webhooks, State/Conflicts and State/Runs the methods. State/Rules has the interface that a
--   relation on databases must meet to be kept by a reconciliation; State/Extends (which keys stay) and
--   State/Rows (which rows stay) meet it. State/Lookup and State/Repeats are about what a statement finds of
--   what another wrote. The error of a constraint is SQLite's text, with the columns that it names.
-- - Digest: the Hash functions of internal/issues, internal/comments, internal/pullrequests,
--   internal/releases and internal/repository, over crypto/sha256 and encoding/json as parameters.
-- - Matching: byID, unconsumed, the checks for duplicates and the pairing by unique keys, which
--   internal/issues, internal/comments, internal/pullrequests and internal/releases each repeat.
--   Matching/Pairs is about the pairs.
-- - Issues, Comments, Releases, the reconcile.go of internal/issues, internal/comments and
--   internal/releases: Reconcile, statement by statement. A forge is a record of calls that may answer
--   anything, fail, and change the outside `W`; `shuffle` is the order in which Go ranges over a map.
--   The Switch modules are about one mapped pair, Issues/DryRun about dry runs, Releases/Assets about
--   the size limit on assets, and the Keeps modules about whole runs.
-- - Gitrefs/Sync, internal/gitrefs/sync.go: Sync with the processes it starts. `Host` is the operating
--   system and the git program: a finished process is what it printed and how it ended. Sync/Run has a
--   run of git and the commands that read, Sync/Buffer the bound on what is kept of the output, Sync/Cycle
--   the run as a whole; Sync/Delivers and Sync/Agrees join the plan, the pushes and the conflicts;
--   Sync/Fetch and Sync/Rounds are about the waits and the rounds of fetchWithRetry.
-- - PullRequests, internal/pullrequests/reconcile.go: Reconcile, statement by statement, with the errors of
--   the forges that it looks at. The children are Switch for a mapped pair, Create for leftovers, and
--   Cycle for the whole.
-- - Repositories, internal/repository/reconcile.go: Discover, whose inventory is part of its state because
--   an error returns what has been counted. Secrets, internal/secrets/reconcile.go: New with its map, and
--   Reconcile.
-- - Engine, internal/reconcile/engine.go: Engine/Repository is reconcileOne, Engine/Cycle is Reconcile and
--   ProcessWebhook over one worker, and Engine/Pool has the goroutines and channels of reconcileMappings
--   as a step relation, in which a run of reconcileOne ends in one step. `Parts` is what the engine calls of
--   the reconcilers, and `PartsKeep` in Engine/Keeps the laws that it asks of them. Engine/Assembly puts the
--   reconcilers in, as cmd/forge-sync/main.go does. Engine/Results is about the assembled engine, and
--   Engine/Resilience about the failures that one repository may have. The Webhooks server takes the engine
--   as its processor.
-- - Webhooks/Server and Webhooks/Wiring, internal/webhooks/server.go and wiring.go: a request from its
--   method to its status, and the hooks that are created on the forges. Server/Laws has the results.
-- - Api/Retry, internal/api/retry.go: the attempts and the waits between them; Retry/Delays and
--   Retry/Budget have the results. An int64 keeps its wrap-around.
-- - Base, Result and Effect: lists, maps, numbers and texts of Go, errors, and functions that change a
--   state. Effect/Within has one rule for each way to build such a function, for what it keeps,
--   Effect/Gives for when it succeeds, and Effect/Same for when two are equal.
-- - Tests: runs on concrete inputs, and the cases that the results are applied to.
--
-- An error is its text; `%q` is written without its quotes. Times are numbers of nanoseconds. Fuel
-- is the budget of attempts in the loop of Do, and the three rounds of fetchWithRetry; no other definition
-- has any, and the loops of the workers are a relation. Strings are compared by bytes, and `sort` is an
-- insertion sort: only the order matters.
--
-- Not modelled: internal/github and internal/forgejo (HTTP and JSON; their methods are parameters),
-- cmd/forge-sync but the construction of the engine (flags, logging, signals), the opening and migration of
-- the database file, the Scheduler of internal/reconcile (a timer round Reconcile), its locks, which keep two
-- runs from the same repository, and internal/config. The statements of two repositories may interleave in
-- the program; in Engine/Cycle the repositories follow one another.
mod Base
mod Result
mod Effect
pub mod Model
pub mod Gitrefs
pub mod State
mod Digest
pub mod Matching
pub mod Issues
pub mod PullRequests
pub mod Secrets
pub mod Repositories
pub mod Engine
pub mod Comments
pub mod Releases
pub mod Webhooks
pub mod Api
mod Tests
