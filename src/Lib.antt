-- ===== src/Lib.antt =====
-- The behaviour of the Python package eazy_sdk: HTTP calls with retries, redirects, refreshes and
-- challenge replays; the values of an operation and the order of its plan; the cookies of a user;
-- the client of a WebSocket with its writes, calls and subscriptions.
--
-- The parts, and the files that model them:
-- - Prelude: the names of the library that the parts share, Boolean tests on numbers, lists over
--   the native numbers, integers, and the results of calls that raise (Prelude/Tests,
--   Prelude/Lists, Prelude/Int, Prelude/Outcome).
-- - Dict, Dict/Distinct, Dict/Every, Dict/Sort: Python's `dict` and `sorted`, and what their
--   operations keep.
-- - Kernel/Values, Kernel/Patch: the slots of an operation, the values bound to them, and the
--   patches of these values, of eazy_sdk/core/kernel.py; validators, and which objects are
--   sequences, are parameters. Kernel/Bound, Kernel/Present and Kernel/Returns are about
--   `from_bound`, the children of Kernel/Patch about `apply_patch_atomic`.
-- - Kernel/Graph and its children: `compile_graph` of the same file. Kernel/Graph/Counts, Loop and
--   Ends are about its `while` loop, Edges and Collect about the edges, Order about the plan that
--   is returned, Errors, Ranked and Acyclic about the errors. The order in which a set is walked
--   is a parameter, which keeps how often an element occurs.
-- - Http/Attempts, Http/Attempts/Policies: `AttemptBudgets`, `AttemptState` and the five policies
--   of eazy_sdk/clients/attempts.py. Http/Attempts/Transition says which transitions a call may
--   make, apart from how the policies reach them, and Http/Attempts/Chain what follows of a chain
--   of them.
-- - Http/Decide: `decide_response` of eazy_sdk/clients/_decisions.py, in the order of its tests,
--   with the reasons for its decisions in Http/Decide/Reasons, Http/Decide/Sound and
--   Http/Decide/Exhausted.
-- - Http/Replay: `_ensure_replay_allowed` of eazy_sdk/protection/advanced.py.
-- - Http/Signals: `_inspect_signals` of eazy_sdk/protection/advanced.py, with what its outcomes
--   mean in Http/Signals/Winner, and how many signals match with one priority in
--   Http/Signals/Rivals. The loop takes what it finds from `Runtime`.
-- - Http/Options: `RetryPolicy` and `CallOptions` of eazy_sdk/policies.py, `Resilience` of
--   eazy_sdk/clients/config.py, and the budgets that a call begins with.
-- - Http/Execute, Http/Execute/Run: the coordinator `_AttemptRun` of eazy_sdk/clients/executor.py.
--   A coroutine is an action that reads and writes a world and may raise (Http/Exec,
--   Http/Failure); the handler, the hooks, the preparation of a request, the jar, the signals, the
--   declared cases, the solvers and the refresh of a session are actions of `Runtime`, each of
--   which may raise, about which nothing is assumed. `_respond` builds the argument of
--   `decide_response` from the state, `_route` asks the policy that owns the decision, and
--   `_commit` performs its effects before the next attempt. Http/Execute/Steps and
--   Http/Execute/Bounds are about one round of the loop and about the whole of it.
-- - Cookies and its children: `CookieJar` of eazy_sdk/cookies.py. Texts are lists of code points,
--   a `datetime` is a number of microseconds, a `dict` is an association list in the order of
--   insertion. `urlsplit`, `parsedate_to_datetime`, `str.lower`, `ip_address` and the digits of
--   Unicode are parameters, and where they may raise the result says so. An exception is part of
--   what a method leaves, beside the jar as it was then.
-- - Ws/Policies, Ws/Replay: the replay policies of eazy_sdk/websocket/policies.py and the loops of
--   `send` and `call` in eazy_sdk/websocket/_outbound.py over an exchange that may fail.
-- - Ws/Decisions: the pure decisions of eazy_sdk/websocket/_decisions.py, the route of a message
--   among them.
-- - Ws/Subscription and its children: `Subscription` of eazy_sdk/websocket/subscriptions.py. Each
--   method runs without an `await` between its reads and writes, so that a call is one step;
--   Ws/Subscription/Calls names the calls, and histories of them are lists or relations.
-- - Ws/Client and its children: the state of a client of eazy_sdk/websocket/_state.py, with what
--   its tasks do to it between two awaits in _outbound.py, _connection.py and _reconnect.py.
--   Shared objects stand in heaps, and the registries, the queue and the table of calls hold their
--   places. Ws/Client/Table is the registries, Failure the end of a connection, Connect `connect`
--   and `aclose`; Ws/Client/Steps names the steps, and Ws/Client/Reader is what the reader does
--   with a message, which Answered and Received are about; Writes, Delivered, Queued, Broken,
--   Lifecycle and Reached are about the writes, Registry, Dropped, Emptied, Routed, Subscribed and
--   Registered about the registries, and Promises about both after any steps.
-- - Ws/Client/Examples, Http/Examples, Ws/Examples, Cookies/Examples, Kernel/Examples: runs on
--   concrete inputs.
--
-- Fuel: `execute` is a `while` loop whose guard is the hard limit of attempts, so more fuel than
-- that limit is enough. The loop of a delivery ends after as many replays as its policy has, so
-- more fuel than those is enough. The loop of `compile_graph` ends after as many turns as there
-- are nodes.
--
-- Not modelled: the compilation of operations from Python signatures, the building and signing of
-- requests, the inspection of declared cases, sockets and handlers, cryptography, the frames and
-- the heartbeats of a WebSocket, sessions, dependencies, pagination, redaction, and the plugins;
-- of the kernel, the path in the message of a cycle and the check of a value against an
-- annotation. What the attempt loop needs of the first three is an action or a function of
-- `Runtime`.
pub mod Prelude
pub mod Http
pub mod Kernel
pub mod Ws
pub mod Dict
pub mod Cookies
