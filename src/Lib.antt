-- ===== src/Lib.antt =====
-- BOMHort: the Go back end of a software bill of materials (SBOM) dashboard.
--
-- The back end ingests SBOM documents, resolves the licenses of their packages, decides which packages
-- violate the license policy, and stores the outcome. This library models the parts that decide, and
-- leaves out the parts that move data.
--
-- License (backend/internal/license):
--   License/Token, License/Parse, License/Node, License/Evaluate, License/Leaf are expression.go: the
--   tokenizer (`tokenize`), the recursive-descent parser (`parseExpression`), the tree (`exprNode`),
--   its folding (`evaluate`, `combineChoice`, `combineConjunction`) and the lookup of one identifier
--   (`lookupLeaf`, `resolveLeaf`, `lookupDeprecated`). License/Category and License/Policy are the
--   categories, the policy and `Categorize` of checker.go; License/Exceptions is exceptions.go, whose
--   license lists go through the same parser; License/Check is `CheckWithExceptions` of checker.go and
--   reevaluate.go, both clients of the policy and of the exceptions. Under each part the children hold
--   the proofs, named for what they prove; License/Examples has tests and examples.
--   License/Source is source.go, the encoding of provenance and of negative results, and License/Cache
--   is cache.go, the resolvers' cache of such values.
--
-- Ingest (backend/internal/ingestpath/ingestpath.go): the layout of ingestion paths, with `ParseLayout`
--   (`parse_layout`), `Layout.String` (`layout_text`), `Derive` and `Apply`.
--
-- Depgraph (backend/internal/depgraph/depth.go): `Compute` (`compute`) walks the relationship graph
--   breadth first, and `MinDepthForPURL` (`min_depth_for_purl`) reads the depths it assigns.
--
-- Osv (backend/internal/osvutil/cveid.go): `CVEID` (`cve_id`) picks the CVE identifier of a finding.
--
-- Members (backend/cmd/api-gateway/vuln_filter.go): `parentMembers` (`parent_members`) lists the projects
--   under given parents.
--
-- Queue (backend/internal/clickhouse/queue.go, backend/cmd/parsing-worker/main.go): the append-only job
--   queue. `latestJobs` (`latest_jobs`) reduces the table to one row a job, `selectJobs` (`select_jobs`)
--   picks the oldest; `ClaimJobs` (`claim_jobs`), `CompleteJob`, `FailJob`, `DeferJob`, `RequeueStaleJobs`
--   and `KnownHashes` stand on them. Queue/System puts the workers beside the table: a step is one query or
--   one insert of a call, and the steps of several calls interleave. The sweep for stale claims may take
--   jobs that a worker is still busy with, and ids may be queued again. Taken for granted is that the
--   sections of `ClaimJobs` exclude each other: so they do in one process, and under the Kubernetes lock
--   unless a node is suspended in its section, but not in several processes under the local locker.
--
-- ClaimLock (backend/internal/claimlock/lock.go): what `WithLock` (`with_lock`) returns of a critical section,
--   from its time on the worker's own clock and the end of the leadership. The election of a leader is a
--   library's; that its holders exclude each other is not modelled.
--
-- ProjectGroup (backend/internal/projectgroup): ProjectGroup/Owner is owner.go, the owner of a project
--   (`ownerKey`, `owner_key`); ProjectGroup/Glob and ProjectGroup/Rules are rules.go, the texts of the
--   patterns' regular expressions and the mapping file; ProjectGroup/Resolve is `Resolve` (`resolve`),
--   which decides by project and then by family. Members reads the assignments that it makes.
--
-- Tags (backend/internal/tags/tags.go): `Normalize` (`normalize`), `Parse` and `Merge`, on bytes.
--
-- Conventions:
--   Texts are lists of code points. The case mappings are those of Unicode for the runes whose image is
--   in ASCII and leave every other rune as it is: their results are only compared with ASCII constants.
--   A Go map is an association list, a set a list without repetition. Where Go visits a map in no
--   particular order, the model takes the order of the list.
--   The parser's position is the list of the tokens that are left. It runs on fuel, four units a token
--   and four more: four calls at most lie between two tokens. Errors carry their kind, not their
--   message. The walk over the dependency graph runs on one unit of fuel a package, since a package
--   enters the queue once.
--   The package counter is a uint32 and wraps around.
--
-- Not modelled: files, object storage, HTTP, JSON decoding and the SQL outside of queue.go, which stand
-- outside of the decisions modelled here; reading and decoding a policy file are parameters of `load_policy`,
-- and `LoadExceptions` one of `load_exceptions_with_fallback`. `Normalize`
-- (backend/internal/license/normalize.go) is a parameter of `categorize`, and `Categorize` under the
-- policy of a run is a parameter of the compliance check. Mutexes: each operation on the policy and
-- on the cache runs by itself.
pub mod Base
pub mod ClaimLock
pub mod Depgraph
pub mod Ingest
pub mod License
pub mod Members
pub mod Osv
pub mod ProjectGroup
pub mod Queue
pub mod Tags
