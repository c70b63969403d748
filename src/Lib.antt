-- ===== src/Lib.antt =====
-- The Statsig Go server SDK: its evaluation of gates, configs and layers, the store of
-- specifications that the evaluation reads, and the client around them. The paths below are from
-- the repository's root.
--
-- The parts. The store (store.go) takes the specs of gates, configs and layers from a data adapter,
-- from bootstrap values or from the network, polls for new ones, and keeps the ID lists in step
-- with the server. The evaluator (evaluator.go) answers for a user whether a gate passes, and what
-- a config or a layer holds: it walks the rules of a spec and the conditions of a rule, and a
-- condition may ask for another gate, a rule for another config. The client (client.go) completes
-- the user's environment, asks the evaluator, and hands exposures to the logger (logger.go), which
-- sends them in batches over the transport (transport.go). Every call runs under the error boundary
-- (error_boundary.go), which turns a panic into a default answer and a report. The package
-- (statsig.go) keeps one client as its global instance and passes calls on to it. The syncs and the
-- calls leave markers (diagnostics.go), which the logger sends and the output logger writes.
--
-- The files:
-- * Types, Types/Getters (types.go): the user, the event, `configBase`, and the typed getters; Kinds
--   has the five getters beside each other.
-- * Spec (store.go): `configSpec`, `configRule`, `configCondition`, `downloadConfigSpecResponse`.
-- * Store/State (store.go, evaluation_details.go): the store's state and its getters.
-- * Store/Specs (store.go): `setConfigSpecs`, `processConfigSpecs`. Laws has what is known after.
-- * Store/IdLists, Store/IdLists/Lines (store.go): `syncIDLists`, in the steps of its loop, and the
--   lines of a downloaded list. Laws is about the lines, Valid about the stores of a sync.
-- * Store/IdLists/Schedule (store.go): the loop and the goroutines of `syncIDLists` as a step
--   relation, in which the downloads end in any order. Entries is about one entry of the map, Apart
--   about which lists run, Interleaving about the order, Completion about the end.
-- * Store/Sync (store.go): `handleSyncError`, `fetchConfigSpecsFromServer`,
--   `fetchConfigSpecsFromAdapter`, `newStoreInternal`, the rounds of the two polling loops, and
--   `stopPolling`. Frame, Failures, Honest, Reach and Startup are its theorems; the stores a program
--   reaches are an indexed data type in Reach. Refinement has the abstract state of a store, the
--   last answer with updates, Rounds the runs of a store beside it, Liveness the failing polls.
-- * Store/Markers (store.go, error_boundary.go): the markers of the fetches, of the sync of ID lists
--   and of the captured calls, each list in the order of the code. Pairs and Laws are its theorems.
-- * DataAdapter (data_adapter_interface.go, data_adapter_example.go): the example adapters.
-- * Evaluator/UserFields (evaluator.go): `getUnitID`, `getFromUser`, `getFromEnvironment`,
--   `getFromUserAgent`, `getFromIP`.
-- * Evaluator/Compare, Evaluator/Version, Evaluator/Clock (evaluator.go): `compareNumbers`,
--   `compareStrings`, `arrayAny`, `compareVersions`, `getTime` and what they call.
-- * Evaluator/Operator, Evaluator/Condition (evaluator.go, util.go): the two switches of
--   `evalCondition`, with `evalGate`.
-- * Evaluator/Eval (evaluator.go): `evalPassPercent`, `evalRule`, `evalDelegate`, `eval`. Depth,
--   Fuel, Rules, Decision, Percentage and Cycle are its theorems.
-- * Evaluator/Api (evaluator.go): `checkGate`, `getConfig`, `getLayer` and the overrides.
-- * InitializeResponse (client_initialize_response.go): the values for a client SDK; Types has the
--   response, Exposures, Gates and Ending are its theorems.
-- * Transport (transport.go): `retry`, `postRequestInternal`, `shouldRetry`; theorems in Retries.
--   Requests (with statsig_metadata.go and error_boundary.go) has the requests and their headers;
--   Slashes is about their URLs.
-- * ErrorBoundary (error_boundary.go): `checkSeen`, `logException`, the captures; theorems in Laws.
--   Concurrent has the goroutines that log exceptions as a data type of runs.
-- * Diagnostics (diagnostics.go): the markers and their sampling; theorems in Sampling. Markers has
--   the builders of a marker and the messages of `logProcess`.
-- * OutputLogger (output_logger.go, global_state.go): `Log`, `LogStep`, `LogError`.
-- * Logger, Logger/Flush (logger.go): the buffer, the exposures, the flushes. Buffer, Flushes and
--   Privacy are its theorems.
-- * Client, Client/Calls (client.go): the user's environment, the answers of the server, and the
--   calls of a client. Checks, Exposures and UserEnvironment are its theorems.
-- * Client/Sessions (client.go): a client that serves one call after another, with the layers it has
--   handed out. Fine and Kept are about one call, Laws and Total about a whole session.
-- * Package, Package/Calls (statsig.go, client.go): `NewClientWithOptions`, `InitializeWithOptions`,
--   the functions that pass a call on, `Shutdown`, and a program that uses them. Laws is about a
--   package that is initialized, Uninitialized about one that is not.
-- * Prelude, Dict, Text, Value: shared helpers, maps, texts and `interface{}` values. Runtime: what
--   the SDK calls and this repository does not hold. Tests: runs and the theorems at concrete data.
--
-- Fuel. `eval` calls itself through conditions and delegates; the model cuts the calls after a
-- number of levels. The code's own limit is a depth of 300, and every call raises the depth, so
-- that 302 levels from depth 0 never run out. All other loops are structural; `retry` recurses on
-- the retries that are left.
--
-- Parameters. Floating point, SHA-256, base64, JSON, formatting, regular expressions, dates, the
-- Unicode tables beyond ASCII, the lookup of countries and user agents, and the clock are fields of
-- `Runtime`. The percentage theorems assume that whole numbers below 2^53 are exact. What the HTTP
-- client gives at each attempt, what the server answers, and the draws of the sampling are
-- arguments.
--
-- What the model leaves out. An evaluation reads one snapshot of the store and one reading of the
-- clock; Go takes the lock for each read. A text is a sequence of code points, so invalid UTF-8 is
-- not modelled. Calls of one client come one after another in a session; Go lets them overlap and
-- locks the buffer, the overrides and the exceptions seen, of which only the last are shown to
-- overlap. The start and the end of a download are one step each, since it touches only the entry
-- of its own list. A size of an ID list does not wrap around at 64 bits, nor does the product of
-- failures and interval. The adapter's `Initialize` is assumed to return. The markers are modelled apart from the stores and the sessions that leave
-- them; their times are left out. The answers of the transport are arguments of the other parts,
-- so that its requests stand apart from them. Messages on stderr, the report of a failed request
-- for the ID lists and the message of `verifyUser` are left out.
pub mod Client
pub mod DataAdapter
pub mod Diagnostics
pub mod Dict
pub mod ErrorBoundary
pub mod Evaluator
pub mod InitializeResponse
pub mod Logger
pub mod OutputLogger
pub mod Package
pub mod Prelude
pub mod Runtime
pub mod Spec
pub mod Store
pub mod Tests
pub mod Text
pub mod Transport
pub mod Types
pub mod Value
