-- ===== src/Lib.antt =====
-- A verification library for oh-my-code-agent, a manager of coding-agent configuration. The program
-- decides, for each host (claude-code, codex, ...) and each worktree, which skills, MCP servers and
-- instructions are active, and explains which of a host's own configuration sources wins.
--
-- The parts and how they interact:
--   - internal/domain holds the documents that the others pass around, their closed vocabularies and
--     their validators. Domain/Levels, Domain/Host, Domain/Documents, Domain/Validate and
--     Domain/Validate/Denied model intent.go, evidencelevel.go, host.go, profile.go, binding.go,
--     activation.go, exception.go and apiversion.go.
--   - internal/profiles selects the profiles of a worktree: Profiles/Glob and Profiles/Binding are
--     binding.go (globMatch, MatchBindingsWithMain, MatchedProfileIDs), Profiles/Identity is
--     identity.go (ResolveIdentities, FinalProfileIDs), Profiles/Compose is Compose of compose.go.
--   - internal/resolve takes those profiles, an activation and the exceptions to the desired state of one
--     host. Resolve/Types is types.go; Resolve/Candidates, Resolve/Decide (with Reduce), Resolve/Layer,
--     Resolve/Waiver and Resolve/Run are collectProfileCandidates, resolveOne and reduceGroup,
--     applyLayer, findException, and collectUniverse with Resolve, of resolve.go.
--   - internal/effective merges the configuration sources that a host has into one entry or a conflict.
--     Effective/Types is types.go with internal/ontology/mergeoperator.go, Effective/Sources has the
--     helpers of merge.go and precedence.go, Effective/Operators and Effective/DeepMerge the merge
--     operators, Effective/Compose is compose.go, Effective/Group is ResolveGroup and applyOperator,
--     Effective/Identity is identity.go and Effective/Graph is ComputeEffectiveGraph of resolve.go.
--   - internal/assurance bounds what is claimed of such a graph: Assurance/Ceilings is ceiling.go,
--     Assurance/Verify is verify.go and Assurance/Evidence is evidence.go.
--   - internal/drift reports the differences between the expected and the observed state. Drift/Types is
--     types.go, Drift/Classify is classify.go, Drift/Group and Drift/Samples are group.go.
--   - internal/hub runs the steps of a worker and the tools that the workers share. Hub/Repair is
--     JSONAutoRepair and Hub/Watchdog is CheckCallLoop, of watchdog.go, with DetectNgramLoop and
--     SwarmQuorumDecision in Hub/Watchdog/Ngram and Hub/Watchdog/Quorum. Hub/Pool is pool.go: the slots
--     as a step relation on all callers (Slots) and the registry of workers (Workers). Hub/Tool is the
--     lifecycle of a tool of supervisor.go, Hub/Tool/Calls the interleaving of its calls with its read
--     loop, and Hub/Tool/Reaper is reaper.go.
--   - internal/knowledge says which host versions a pack covers. Knowledge/Semver is semver.go with its
--     parsers in Knowledge/Semver/Parse, and Knowledge/Repository is repository.go, whose Resolve says
--     whether a host is qualified.
--   - internal/auth decides how a host gets its credentials. Auth/State is mutablestate.go, Auth/Paths has
--     the functions of path/filepath that Auth/Allowlist (allowlist.go) uses, and Auth/Fallback is
--     fallback.go with keyring.go.
--   - internal/runtime makes a compiled generation the current one. Runtime/DiffChanges is diffchanges.go,
--     Runtime/Confirmation is confirmation.go, Runtime/Gate puts the two together as `omca activate` of
--     cmd/omca/activate.go does, and Runtime/Activate is Activate of activate.go and Rollback of
--     rollback.go with compatibility.go, the pointers of current.go and pending.go and the ledger of
--     ledger.go.
-- Prelude has the shared types, lists, keyed maps, Go's sorts and the order of strings.
--
-- Conventions. A Go string type of constants is a data type with a constructor `other` for any other
-- text. A Go map is a list of pairs of which the first with a key counts, or, where only membership
-- matters, a list; a theorem about an unordered map holds for each order of the list. sort.Strings,
-- sort.Slice and sort.SliceStable are one stable insertion sort. An error or a message is a constructor
-- of a data type with the arguments of the Go format. An instant is a natural number, but for a time that
-- is only printed, which is its text. The Go `int` of a scope rank is its offset from the least integer.
-- Callers that run at once are a relation of steps between states, one step for each access to shared
-- state, and a theorem holds for every order of the steps. A text that is read letter by letter is the
-- list of its codes. A failing write or a taken lock is an argument of the operation. The product in
-- DetectNgramLoop wraps at 2 ^ 64, and a slice out of range is `none` there.
--
-- There is no fuel: every loop is recursion on a list, on an object or on a count that the code has, and
-- the printer of a decimal number takes a bound on its digits.
--
-- Parameters: path.Match on one segment of a path (Profiles/Glob), and the canonical digest of a JSON
-- value, which the program computes by encoding and hashing (Effective/DeepMerge, Drift/Group), with
-- the name of a value's type that Go prints. One theorem asks of
-- the digest that a leaf and an object never have equal digests.
--
-- Not modelled: the rate limit of the pool, which computes its tokens and waits in floats, the reading
-- and writing of files (the loaders are results that Compose and load_repository receive, the manifests
-- and the fresh source digest are arguments of activate), the extraction of candidates from files, and
-- the packages that start processes, draw a terminal, serve a protocol or print a report. In DEEP_MERGE a
-- changed nested object is put back into its parent; that the Go code changes the map of the first source
-- in place is not visible in the model.
pub mod Prelude
pub mod Domain
pub mod Resolve
pub mod Profiles
pub mod Effective
pub mod Drift
pub mod Hub
pub mod Knowledge
pub mod Assurance
pub mod Auth
pub mod Runtime
