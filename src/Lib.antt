-- ===== src/Lib.antt =====
-- The protocol core of the NPS SDK for Python, package nps_sdk: the frames of the wire format, the
-- discovery of nodes, the identities of agents and the state that nodes keep.
--
-- How the parts interact. A frame travels behind a header (nps_sdk/core/frames.py) that the codec
-- (nps_sdk/core/codec.py) writes and reads; schemas that frames refer to are cached
-- (nps_sdk/core/cache.py). A client that loses its anchor resolves again and connects
-- to the next one (nps_sdk/ncp/failover.py). Where the anchor is, the discovery registry says
-- (nps_sdk/ndp/registry.py, with the election of nps_sdk/ndp/cluster.py); the orchestration layer caches
-- its answers (nps_sdk/nop/cluster_delegation.py), and accepts a task only behind the checks of its
-- graph (nps_sdk/nop/validation.py). The orchestrator (nps_sdk/nop/orchestrator.py) runs the nodes of the
-- graph as their dependencies end and their conditions allow (nps_sdk/nop/condition.py), with inputs
-- from earlier results (nps_sdk/nop/input_mapper.py), compensates them when the task fails, and merges
-- what the end nodes return (nps_sdk/nop/aggregator.py). Agents enroll at the CA (nps_sdk/nip/ca/ra.py), and each node
-- verifies their certificates (nps_sdk/nip/verifier.py, nps_sdk/nip/revocation_policy.py). A node that
-- serves a language model keeps its conversations in nps_sdk/nwp/context_store.py.
--
-- Which file models which part:
--   Prelude            shared names, Boolean tests, lists, results, and Python's dict (Prelude/Dict)
--   Core/Frames        nps_sdk/core/frames.py: FrameType, EncodingTier, FrameHeader.parse and to_bytes
--   Core/Codec         nps_sdk/core/codec.py: NpsFrameCodec.encode and decode; Vector is the payload of
--                      Tier3BinaryVectorCodec
--   Core/Cache         nps_sdk/core/cache.py: AnchorFrameCache
--   Nop/Dag            nps_sdk/nop/validation.py: DagValidator.validate
--   Nop/Models         nps_sdk/nop/models.py: the task graph, TaskState, the policies
--   Nop/Aggregator     nps_sdk/nop/aggregator.py, over the JSON values of Nop/Json
--   Nop/InputMapper    nps_sdk/nop/input_mapper.py: resolve and build_params
--   Nop/Condition      nps_sdk/nop/condition.py: Tokens (_tokenize), Values (_compare), Parser (_Parser
--                      and evaluate); Grammar has the trees that the parser is compared with
--   Nop/Callback       nps_sdk/nop/validation.py: NopCallbackValidator
--   Nop/Store          nps_sdk/nop/store.py: InMemoryNopTaskStore
--   Nop/Orchestrator   nps_sdk/nop/orchestrator.py: Plan (the tests on dependencies), Loop (_run_dag up
--                      to its result), Outcome (the result), Saga (_run_saga_compensation), Node
--                      (_consume_stream, _execute_node_with_retry), Admission (the guards of execute,
--                      _run_preflight), Task (execute, its timeout, what it writes to the store), Notify
--                      (_fire_callback); the other files hold proofs
--   Nop/Delegation     nps_sdk/nop/cluster_delegation.py: ClusterDelegationResolver
--   Nwp/ContextStore   nps_sdk/nwp/context_store.py: State (the data and _sweep), Guards (the tests
--                      before a change), Operations (reserve, commit, abort), Lifecycle (release,
--                      status, snapshot); the other files below it hold proofs
--   Ndp/Cluster        nps_sdk/ndp/cluster.py: resolve_cluster_from
--   Ndp/Registry       nps_sdk/ndp/registry.py: InMemoryNdpRegistry; Target is nwp_target_matches_nid
--   Ncp/Failover       nps_sdk/ncp/failover.py: NcpFailoverConnector
--   Nip/Tokens         nps_sdk/nip/ca/ra.py: InMemoryBootstrapTokenStore
--   Nip/Pending        nps_sdk/nip/ca/ra.py: InMemoryPendingStore and PendingQueuePolicy
--   Nip/Revocation     nps_sdk/nip/revocation_policy.py: NipRevocationEvaluation
--   Nip/Verifier       nps_sdk/nip/verifier.py: NipIdentVerifier.verify; Paths is nwp_path_matches
--
-- State and operations. A class with a lock is a state, and a call is a function on it that returns the
-- result or the error, and the new state: its lock makes the call one step. A call that takes its lock
-- twice is two steps (resolve_active) or is stated for the case that nothing comes between
-- (PendingQueuePolicy.check). The orchestrator's loop awaits its tasks in whatever order they end:
-- that order, with the calls of the store that the tasks make meanwhile, is a list of events, and what is
-- proved holds for every list. Times are natural numbers of microseconds, and the readings of a clock,
-- random ids and factories are arguments. A dict is an association list in insertion order.
--
-- Bounds. Bytes are numbers below 256 and lengths are packed into 16 or 32 bits as struct.pack does. The
-- loop of Kahn's algorithm runs on as much fuel as there are nodes; next_context_id makes the source's
-- eight tries; the search of _can_reach_end_node has a round for each edge and one more, and is proved
-- to need no more; the tokenizer of conditions has a round for each character and the parser six for each
-- token and five more, which evaluate_total shows to be enough; the loop of _run_dag runs on the events;
-- the loop of the connector runs on its own bound, max_attempts.
--
-- What is not modelled: json and msgpack, and the tier codecs but for the layout above; SHA-256, Ed25519,
-- X.509 and datetime parsing, which are parameters; sockets, HTTP, SQL, DNS, logging and metrics; texts of error messages; the other modules of
-- the package.
pub mod Core
pub mod Ncp
pub mod Ndp
pub mod Nip
pub mod Nop
pub mod Nwp
pub mod Prelude
