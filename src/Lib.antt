-- ===== src/Lib.antt =====
-- Verification library for c2j, the job CLI and worker for recipe jobs.
--
-- Prelude holds the notation, Boolean tests, equality, lists, results and sorting that all share.
--
-- Permissions models pkg/permissions. Grant is `JobDB` with `Validate`, `intersect` and `subset`
-- (policy.go), Overrides is `JobDBOverrides` (inheritance.go), Scope is `State` with `Enter`,
-- `EnterInclude`, `Resolve`, `CheckInput` and `InheritedDenials` (policy.go, inputs.go,
-- inheritance.go), Access is the guard in front of the controller's callbacks (access.go).
-- Authority, Confinement, Inputs, Denials and Access/Laws hold the proofs. A nil list of cell names
-- is `none`. `jobdb.ValidateCellName` and the callbacks are parameters. Wire formats, JSON schema
-- and the issue of credentials are left out.
--
-- Execution models pkg/execution. Selector is `MatchBase` (base.go), Quantity is quantity.go,
-- Requirements, Fields and Normalize are the overlay and the canonical forms (requirements.go,
-- packages.go, capabilities.go, base.go, legacy.go), Compare is compatibility.go, Demand is demand.go
-- without its JSON, Negotiate is `Negotiate` (negotiation.go). Strings are byte strings. The parser of
-- Kubernetes quantities, image references, digests, `strings.ToLower` and `strings.TrimSpace` are
-- fields of the parameter `Formats`.
--
-- Machine models pkg/worker/compiler. Failure holds the types of pkg/recipe, Catch is
-- `evaluateCatchClauses` with `renderCatchFailure` (failure.go), Catch/Validation is
-- `validateCatchClauses` (catch_validation.go, and `Validate` of pkg/recipe/catch.go), Node the copies
-- of a node without its variables, policy or retries, Transitions the choice of a transition, Run is `runState`, Loop the
-- execution mode of `executeStateMachineBody` (statemachine_compiler.go). A recipe's machine may run
-- for ever: `run` is given the number of states that it may visit, and Loop/Halting says how many are
-- enough. CEL, templates, node scopes with their retries, workspaces, hooks and the execution of a
-- node are the parameters `Renderer`, `Conditions` and `Engine`. The validation mode is left out.
--
-- SelfInfo models `SetCapabilities` of pkg/selfinfo/info.go, which reports what the permission grants
-- and the routes of an execution let it do. The rest of that file is left out.
--
-- SelectorCache models the choice of a remote ref in pkg/git/selectorcache/cache.go, and Flight the
-- callers of `Cache.do` under any interleaving. Its runs of git and its directories are left out.
--
-- Secrets models pkg/secrets. Masks is `RedactParts` (redactor.go), Redactor the life of a redactor and
-- of the sessions that share it, under any sequence of calls (redactor.go, session.go), Session is
-- `PrepareReferences` and `materializeReference` (session.go), Values is `Parse`, `Transform`, `Contains`
-- and `Materialize` on JSON-shaped values (reference.go, session.go). Each call holds the mutex and is one
-- step. The loop over the batches has as many turns as there are names, each of which takes a name at
-- least. `strconv.Quote` and `json.Marshal` are the parameter `Encodings`, the provider of secrets is
-- the parameter `Resolver`, and the clock and the context are `Clock`. `Redact`, which replaces the
-- longest mask first, and the reading of template expressions are left out.
--
-- Process models the writers of pkg/ops/process/capture.go, and `seal`, which redacts what they kept
-- by Secrets/Masks before it is shown. The rendering of the log and the process itself are left out.
--
-- HookPolicy models pkg/hookpolicy/policy.go over the scopes of Permissions: the file itself has the
-- documents with their validation and `Select`, Reading is `Decode` and `Capture`, Delegation is
-- `Authority`, Editing is `Edit`. `path.Clean`, the parsers of YAML and JSON, the hash, the JSON codec
-- of an entry (`Codec`) and the test of a cell name are parameters; reading a nil trust is the error `nil_trust`.
pub mod Prelude
pub mod Permissions
pub mod Execution
pub mod Machine
pub mod SelfInfo
pub mod SelectorCache
pub mod Secrets
pub mod Process
pub mod HookPolicy
