-- ===== src/Lib.antt =====
-- BlastRadius reads Terraform, builds a graph of what can reach what, and says of a change what it
-- makes reachable from the Internet. This development models the part of the program that decides:
-- the rules on resources and policies, the graph that they give, its analysis, its score, the
-- comparison of two analyses, the repository's policy and the merge decision. Beside these, it
-- models the reader of the expressions in policies, and of the server what it accepts of a worker,
-- the life of an analysis, the plans, the quotas and the lease.
--
-- How the parts interact. `build_graph` (blastradius/graph/graph_builder.py) asks the rules of
-- blastradius/security/rules.py what each resource opens and fills a networkx graph;
-- `analyze` (blastradius/graph/attack_paths.py) reads it, enumerates attack paths, and calls
-- `score_analysis` (blastradius/security/risk_score.py) and the sentences of
-- blastradius/security/explain.py; `compare` (blastradius/graph/diff_engine.py) takes two analyses;
-- `decide` (blastradius/security/decision.py) takes that diff, the policy of blastradius/policy.py
-- and the rule on public ingress of rules.py. On the server, a route (blastradius/server/app.py)
-- asks `quota` of quotas.py, which reads the plan of plans.py, and submits an analysis to the
-- `JobManager` of jobs.py; this runs a worker, reads its response by `worker_response` of
-- results.py, and stores how the analysis ended with the events of events.py.
--
-- The files.
--   Base      lists, options, results with an error, signed integers, sorting, tests and equality
--   Python    the values and texts that the program works on, `int`, `str`, `repr` and truth
--   Models    blastradius/parser/models.py
--   Graph     what the analysis reads of networkx: a record of functions, and `IsDigraph`, what it
--             relies on; `node_of`, `edge_of`, `nodes_of_type` of graph_builder.py
--   Digraph   the operations of networkx that change a graph, and `DiGraphLaws`, their documented
--             behaviour; `view` makes a `Graph` of such a graph
--   Policies  the policy documents of blastradius/parser/values.py
--   Rules     the rule on public ingress of rules.py, `as_list` of values.py; Index is `references`
--             of values.py, `ResourceIndex` and `role_policy_sources`; Matching, the patterns of
--             ARNs; Iam, the S3 grants of a policy and the roles of an instance; Buckets, the
--             findings on public buckets; Tags, the tags of sensitive data
--   Builder   graph_builder.py: the nodes and edges, Names (the names that are shown), Steps (the
--             functions that change the graph, and `build_graph`)
--   Explain   blastradius/security/explain.py
--   Expression  blastradius/parser/expression.py: Lexer (the texts that are read without a call of
--             `read_value`), Reader (the values, `evaluate_expression`), Shrinks, Ends, Sizes and
--             Total (that it ends), Quoted, Written, Leaves, Steps and RoundTrip (what is
--             written reads back)
--   Analysis  attack_paths.py: Outcome (the result, one path), Bfs (the search and the witness),
--             Enumerate (the depth-first enumeration), Analyze (the whole), Routes (what a route
--             is); Score is risk_score.py
--   Diff      diff_engine.py; Tables and Gains say what one analysis has that another lacks
--   Policy    policy.py: `load_policy_data`; `str(PurePosixPath(text))` is a parameter
--   Decision  decision.py
--   Plans     blastradius/server/plans.py
--   Server    Results is results.py. Jobs is jobs.py and events.py: Kinds (the rows, the events),
--             Steps (`reserve`, `finish`), Run (`_run`, `submit`, `recover`), Life (the steps that
--             the transactions take, with the analysis that the worker of github_service.py adds),
--             Finishes (what `finish` leaves). Quotas is quotas.py, with Routes, what of app.py,
--             lifecycle.py and auth.py changes what is counted, and Life, their steps. Lease is
--             lease.py
--   Limits    `check_structure` of blastradius/parser/limits.py
--   Examples  concrete inputs of the theorems; Network is a graph under which the laws of
--             `DiGraphLaws` hold
--
-- Errors are values: `LookupError`, `InputLimitError` and an error of fuel for the graph and its
-- analysis, one constructor per `raise` for the policy and for expressions, the `HTTPException` of
-- the quotas. A transaction commits, finds its lease lost, or raises and leaves the rows as they
-- were; transactions come one after the other. Times are whole seconds.
--
-- Loops that are not structural run on fuel. The breadth-first search has a turn for each node,
-- since a node is queued once; the enumeration has one turn more than the work budget of 100,000,
-- since each turn but the last spends one unit. The reader of expressions has two units for each
-- code point and two more, since each of its calls leaves less of the text or calls for a value,
-- which does. `recover` has a turn more than there are analyses, since each full batch leaves 100
-- fewer of them to end. Stacks and routes are kept with their last member first. Texts are changed
-- to lower case on the letters A to Z alone. An edge of the graph is a value, and the assignments
-- to its fields are a map over edges.
--
-- Parameters stand for the standard library and for what is not modelled: `fnmatchcase`, the
-- matches of regular expressions, `json.loads`, `jsonencode_argument` and, in Policies, the reader
-- of expressions, the diagnostics of blastradius/parser/coverage.py and `safe_source`; on the
-- server the reading of a report by pydantic, `str.splitlines`, what a worker gives or whether it
-- raises, what becomes of each transaction, and what the lock of the lease answers. In Expression,
-- the match of an AWS traversal and its addresses are parameters, digits are 0 to 9, and a number
-- stays the text of it, so that the limit of `int` on digits is not seen; neither is it in the
-- policies, where a document that `json.loads` refuses for it is one that is no JSON.
--
-- Not modelled: the HCL and plan parsers, whose outputs enter as the records of Models; of the
-- server, the threads, processes and log lines of the `JobManager`, the columns and rows that
-- `persist_result` fills beside the result, who may call a route, and the other routes and services;
-- the reports and the screens, which are input and output over third-party code.
mod Base
mod Python
pub mod Models
pub mod Graph
pub mod Explain
pub mod Analysis
pub mod Diff
pub mod Rules
pub mod Policy
pub mod Decision
pub mod Plans
pub mod Limits
pub mod Policies
pub mod Digraph
pub mod Builder
pub mod Expression
pub mod Server
mod Examples
