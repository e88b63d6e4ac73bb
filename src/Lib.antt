-- ===== src/Lib.antt =====
-- code-iq builds a graph of a code base: detectors emit nodes and edges for each file, the graph
-- builder merges them into one graph, linkers add edges between files, and the query services
-- answer questions about the stored graph. This library models the parts of that pipeline that
-- compute without input or output.
--
-- Model: internal/model. The enumerations with their text forms (NodeKind, EdgeKind, Layer,
--   Confidence, CapabilityLevel), nodes and edges. Go's enumerations are integers; an integer
--   that is no constant is not represented. A property value is one of the shapes that the
--   program stores (Model/Node.antt: Value).
-- Analyzer: internal/analyzer. Analyzer/Merge is merger.go (mergeNode, mergeEdge, unionSorted,
--   edgeKey), Analyzer/Builder is graph_builder.go: Add is `add`, Snapshot is `take_snapshot`,
--   and `run` is their composition: every result is added to a new builder, then the snapshot
--   is taken. The lock makes each call atomic, so a run is a sequence of calls. A Go map is an
--   association list, and its iteration order is an argument (VisitOrder), any permutation.
--   The two maps are nil after Snapshot, which a flag tells; a write to a nil map panics.
--   Analyzer/Diff is diff.go, on the files that discovery finds and the rows of the cache, and
--   Analyzer/Diff/Table what analyzer.go does to those rows by Has, PurgeByPath and Put of
--   internal/cache, a file at a time: the table of files, which has one row for a content hash;
--   Analyzer/Layers is layer_classifier.go, on the matches of its six regular expressions.
-- Linker: internal/analyzer/linker. Linker/Topic is TopicLinker.Link, Linker/Entity is
--   EntityLinker.Link, Linker/Containment is ModuleContainmentLinker.Link. Each reads a snapshot of
--   the builder and returns new nodes and edges.
-- QueryPlan: internal/intelligence/query. The capability tables (capabilities.go), the data of a
--   plan (plan.go, route.go) and the planner (planner.go). The capability lookup is an argument
--   of `plan`, as it is a field of the Go planner. A level is one of the four constants; Go's type
--   is a string, and another string, which no table holds, is not represented.
-- Topology: internal/query/topology.go. The rows that the graph store returns are arguments; a
--   failure of the store is returned by the Go code before any of the modelled code runs.
--   Connections is crossServiceConnections, Services the degree, dependency, bottleneck and
--   dead-service reports, Path is FindPath. The loop of FindPath runs on fuel, one more than
--   there are connections; it never runs out, because each round takes a path off the queue and
--   each service is queued once, as the source or as the target of some connection.
--   Cycles is FindCircular with dfsFindCycles and normalizeCycle. The recursion runs on fuel, one
--   more than there are services; each call that descends puts a new service on the stack, so it
--   never runs out. Go's sets are lists, and a Go map of sets is an association list.
-- Stats: internal/query/stats.go. Ordered is OrderedMap, Categories the seven categories, Names the
--   names under which they count, Ranked sortByValueDesc, and Lazy the StoreStatsService, whose
--   loader is an argument that may change the world it reads. strings.EqualFold is equality in
--   lower case.
-- Flow: internal/flow. Models is models.go, Views the snapshot and the helpers of builders.go;
--   Overview, Ci, Deploy, Runtime and Auth are its five builders, Engine is engine.go and views.go,
--   and Labels and Render are renderer.go. Edges shows which edges the filter ValidEdges keeps. The
--   index of a snapshot by kind is the filter it stands for. The percentage of protected endpoints
--   is kept as its two counts, since the code rounds it in floating point, and how fmt writes a
--   value that is no text is an argument. The store's two loaders are functions of a world that
--   they may change. Texts are UTF-8: sanitizeID writes one underscore for a character.
-- Limits: internal/mcp/limits.go, the clamps CapResults and CapDepth.
-- ReadFile: internal/mcp/read_file.go, ReadRepoFile. The file system, the functions on paths and the
--   type detection are arguments; a file is the pieces and the lines that reading it gives.
-- Snippet: internal/intelligence/lexical/snippet_store.go. What the file system answers about the
--   path of a node is an argument, and an index out of range is a result of its own. The number of
--   lines of context is any integer; no sum of line numbers comes near the bounds of an int.
-- Review: internal/review/diff.go, ParseDiff. Printed is the format of `git diff`, Parsed the scan of
--   a file's hunks, Roundtrip the scan of a whole diff. The scanner's limit on the length of a line
--   is not represented.
-- Base: shared types, tests, lists, texts, maps and sorting. A text is the list of its bytes.
--   The mapping of case and white space covers ASCII, where Go's covers Unicode. sort.Slice is
--   a stable sort; where Go leaves the order of equal keys open, the order of the input is an
--   argument, or the keys are the whole element.
-- Tests: the theorems at concrete inputs.
--
-- Not modelled: the JSON and YAML methods, the detectors and parsers (regular expressions and syntax
--   trees of other libraries), the graph store, the rest of the cache, the servers and the command
--   line.
-- Counters are natural numbers: each counts elements of a list in memory.
pub mod Base
pub mod Model
pub mod Analyzer
pub mod Linker
pub mod QueryPlan
pub mod Topology
pub mod Limits
pub mod Stats
pub mod Flow
pub mod ReadFile
pub mod Snippet
pub mod Review
pub mod Tests
