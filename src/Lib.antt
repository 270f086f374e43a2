-- ===== src/Lib.antt =====
-- A model of the subnet's Python library (src/subnet) and theorems about it.
--
-- The program runs a node of a decentralised subnet that serves a language model in blocks. A
-- server holds a range of blocks, announces it in a DHT, and answers requests of clients, which
-- route a sequence of blocks over several servers. Each epoch of the chain one node is the
-- validator, which submits the scores of all nodes; the others attest the scores or do not.
--
-- Which file models which part:
--
--   Prelude, with Prelude/: Boolean tests on numbers, lists, integers, Python's dict as an
--   association list (Dict: lookup, insert, erase), C integers of 64 bits (Words).
--
--   Swarm: what servers announce. Data is src/subnet/data_structures.py (ServerState,
--   ServerInfo, RemoteModuleInfo, RemoteSpanInfo); Spans is compute_spans of
--   src/subnet/utils/dht.py, one function per loop (visit_modules, visit_servers, visit_server,
--   update_span). Blocks is src/subnet/server/block_selection.py: the throughput of each block
--   and the blocks that a new server takes. Balance is should_choose_other_blocks of the same
--   file: a round over the servers (visit_all), the rounds (rebalance) and the answer (judge). The
--   number of rounds is its fuel, a parameter; nothing in the code bounds it, and a call that has
--   used it up is unfinished. Throughputs are multiples of some unit, and sums are exact, where the
--   code has floats; how many thousandths of that unit make the code's 1e-3 (eps) is a parameter of
--   Balance, so that a throughput may be below it. The orders that np.random.shuffle gives are a
--   parameter (Shuffles is what is asked of it).
--
--   Swarm/Modules is what src/subnet/utils/dht.py reads of the records in the DHT. Epochs is the
--   block arithmetic of src/subnet/substrate/utils.py.
--
--   MemoryCache: src/subnet/server/memory_cache.py. The record Cache is the shared memory of the
--   class; enqueue, commit, free, dequeue, is_full and use_cache are the blocks between two
--   points where another process may run, and MemoryCache/Steps composes them to the
--   interleavings of many calls of allocate_cache and of the runtime's use_cache (Step, Reach).
--
--   TaskPool: PrioritizedTaskPool of src/subnet/server/task_pool.py, a function of the pool per
--   method; TaskPool/Conservation runs any sequence of them (Op, apply_all).
--
--   Client: src/subnet/client/inference_session.py. Connection is _ServerInferenceSession (a
--   server's session: step, close and the setter of position); Session is InferenceSession (step
--   with its loops attempts and blocks, _update_sequence, close), and Session/Timed is its
--   timed_step. Servers is what they call: the servers and the sequence manager, as actions on a
--   world of which nothing is known. Connection/Uses is a session that is used a number of times,
--   and Connection/History records what is sent then, and what a server has of it that takes it.
--
--   Client/Routing: RemoteSequenceInfo of src/subnet/client/routing/sequence_info.py, and from
--   src/subnet/client/routing/sequence_manager.py the servers that _update keeps (usable),
--   on_request_failure and _make_sequence_with_max_throughput. That makes as many spans as there
--   are blocks at most, which is its fuel.
--
--   Client/Routing/Latency is _make_sequence_with_min_latency of the same file, and
--   Latency/Graph the graph that it searches (_build_inference_graph). The search of dijkstar is a
--   parameter (FindsPaths is what is asked of it), and so are delays, which are floats (Delays).
--
--   Client/Autograd: sequential_forward of src/subnet/client/sequential_autograd.py, an attempt, the
--   attempts at a span and the loop over blocks, on a record of the loops' variables. Remote is
--   what it calls. Attempts and rounds are its fuel; with as many as max_retries and more rounds
--   than blocks it never runs out of them. Autograd/Backward is sequential_backward, which takes
--   the spans from the last one on and runs a new forward pass where a server fails.
--
--   Consensus: the thread of src/subnet/substrate/consensus.py. Exec (with Exec/) is Python's
--   state and exceptions (what was written before a raise stays). Chain is what the thread
--   calls: the queries and transactions of src/subnet/substrate/chain_functions.py and the
--   scoring protocol, as actions on a world of which nothing is known, and which may raise.
--   Attest is validate, attest, should_attest and what they call; Activate is _activate_subnet;
--   Run is run, a round at a time (iterate).
--
--   Substrate: src/subnet/substrate/chain_functions.py. Interface is what substrate-interface and
--   tenacity offer; Requests is the body that its functions share (with, try and except, the
--   decorator); Extrinsics are the functions that submit and Queries those that ask, each under
--   its own name; Events is get_reward_result_event. Operations names them for statements about
--   all of them, and Calls and Replies are tables of what each one sends. Nodes is SubnetNode of
--   src/subnet/substrate/chain_data.py with get_submittable_nodes and get_included_nodes of
--   src/subnet/substrate/utils.py; Scores, with Scores/, is get_blockchain_peers_consensus_data,
--   get_score and get_consensus_data of that file. Node makes of all these the chain that the
--   consensus thread works on.
--
-- How they interact: the consensus thread calls the functions of chain_functions.py, through
-- utils.py for nodes and scores: its Chain is a parameter, which Substrate/Node fills with them.
-- The consensus thread and the server are processes of one node that share no
-- state. Within the server, handlers reserve memory (MemoryCache) and submit tasks (TaskPool) to
-- the runtime, whose loop takes tasks and uses the reserved tensors. Spans are what clients and
-- servers read of the swarm.
--
-- Bounds and fuel. Peer ids, account ids, task uids, handles and adapters are only
-- compared, so they are numbers; so are priorities and times, which are floats in the
-- code. The lengths of spans and the scores are integers, since a peer may announce a
-- first block after its last one. The floats of the scores are a parameter with the
-- operations that the code uses, and what IEEE 754 says of their rounding is a hypothesis;
-- so is what tenacity documents of retry. The counters of MemoryCache are C integers of 64
-- bits that wrap around and are read as signed. handle_counter is taken to stay below 2 **
-- 63 (the hypothesis of the step schedule); the bounds of the code's limits, where a
-- theorem needs them, are among its hypotheses. Block numbers stay below 2 ** 53, where
-- Python's int(a / b) is the quotient. attest_loop takes the number of its rounds:
-- as_attestor gives a hundred (attest_rounds), since the code leaves the loop in the round
-- after MAX_ATTEST_CHECKS + 1 attempts that failed. activate takes the depth to which
-- _activate_subnet may call itself, and raises past it, as Python does. run takes the
-- number of its rounds. A step of the client takes the number of attempts at a server,
-- where the code leaves the loop after max_retries of them, and the number of servers to
-- use.
--
-- Not modelled: the neural networks (src/subnet/models), RPC handlers, backends and measurements
-- of the server, the network code of the DHT, substrate-interface and scalecodec (parameters), the command line, the health
-- pages. Logging is left out everywhere. Tensors of the cache are their descriptors.
pub mod Prelude
pub mod Exec
pub mod Swarm
pub mod MemoryCache
pub mod TaskPool
pub mod Consensus
pub mod Client
pub mod Epochs
pub mod Substrate
