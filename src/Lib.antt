-- ===== src/Lib.antt =====
-- A model of the security core of the NereusDoorLoongMagicPanel backend, and what is proved of it.
--
-- An agent that a language model drives asks for operations on a server. The backend decides which
-- tool calls run by themselves, which need an approval and which are blocked; an administrator
-- approves elevation codes; a root process, the privileged agent, executes signed requests, and over
-- an older channel unsigned ones. The parts and their files, with paths from the root of the repository:
--
--   Elevation           gateway/service/elevation_service.py. The records (ElevationCodeEntry is
--                       Entry, JITToken is Token, ElevationService is Service); Elevation/Codes has
--                       generate_code, get_code, list_pending, approve_code, reject_code and
--                       revoke_token; Elevation/Signing has create_signed_request (its guards are
--                       authorise and check_channel) and _cleanup_expired. Elevation/Steps makes
--                       the calls a data type and a run a list of calls.
--   Crypto              privileged_agent/crypto.py: sign, verify, hash_payload.
--   Replay              NonceStore and check_timestamp_freshness of internal_rpc/security.py, and
--                       _check_nonce, _check_timestamp_freshness and RateLimiter of
--                       privileged_agent/server.py.
--   InternalRpc         internal_rpc/server.py (_handle_raw is admit, then call_handler),
--                       internal_rpc/security.py and internal_rpc/models.py.
--   PrivilegedAgent     Validator is privileged_agent/validator.py; Scripts, Dispatch and Server are
--                       the V2 channel of privileged_agent/server.py (_handle_v2 is handle_v2,
--                       _dispatch_v2_command is dispatch_v2_command). Signed joins its signature
--                       check to the elevation service.
--                       V1 is the unsigned channel of the same file: the actions of _dispatch that
--                       check what they are given; Nginx is its nginx.save_config_atomic.
--   Safety              agent/safety/rule_engine.py with getAllowedRiskLevels of
--                       agent/agent_router/router.py; Safety/Risk is agent/safety/risk_scorer.py.
--   Preauthorization    _isPreAuthorizedToolCall of agent/agent_core/agent_loop.py and the functions
--                       that it uses, for runs that nobody attends: what it reads of the arguments,
--                       Checks (_checkStaticPreauthorization) and Decision (the rest).
--   ToolAuthorization   gateway/service/ToolAuthorizationService.py over the table of
--                       gateway/dao/ToolAuthorizationDaoOrm.py. A submission draws its code from
--                       Elevation, an approval writes into an ApprovalPolicy of Preauthorization.
--                       Submit has submitRequest, Merging _mergeGrant and the write-back, and
--                       Decisions approve, reject, expire and the listings. submission_of is what
--                       _submitAuthorizationRequest of the agent loop asks for.
--   EventBuffer         gateway/service/AgentEventBuffer.py, with the consumer of its queue,
--                       get_nowait of _streamEvents in gateway/service/AgentGatewayService.py.
--   ScheduledTask       gateway/service/ScheduledTaskService.py over the tables of
--                       gateway/dao/ScheduledTaskDaoOrm.py, and AgentScheduler of
--                       gateway/scheduler/scheduler.py (Jobs). Approvals draws the code of a policy
--                       from Elevation; Runs is runTask in two halves, between which the agent
--                       runs; Admin is the branch of approve_code of gateway/controller/AdminController.py
--                       for a task's code; Grants is _grantToScheduledTask of
--                       gateway/service/ToolAuthorizationService.py; Steps makes the calls a data
--                       type.
--   BackgroundRunner    gateway/service/AgentBackgroundRunner.py. The loops of a session (submit,
--                       cancel, the end of a round, the finally block of _runAgentLoop) are
--                       operations whose interleavings Steps gives as a relation; Events is what
--                       _runAgentLoop writes for each event of the agent.
--   AgentCore           agent/agent_core/agent_loop.py: Calls is the state EXECUTING of _runLoop,
--                       which joins Safety and Preauthorization to the user's decisions; Output is
--                       _fitToolOutputForModel and _appendToolMessage; Approvals is the wait of
--                       _handleApproval with approve and reject; Plans is _waitForPlanApproval with
--                       approvePlan and rejectPlan. After the ERROR event of a blocked call, submit
--                       of agent/integration/session.py may cancel the loop: this is the field
--                       cancelled of an Answer, at the end of a call.
--   StructuredLlm       agent/llm_structured.py and agent/safety/llm_classifier.py.
--   Context             compressHistory, _groupMessages and _buildSummary of
--                       agent/context_mgmt/compressor.py.
--   Common              Boolean tests, lists, texts, dictionaries and JSON values.
--
-- How the program is modelled. State is a record that an operation takes and returns. The locks of
-- the services cover whole operations, so that a run is a list of calls. Instants and durations are
-- natural numbers of seconds, and an operation reads the clock once, as its argument
-- `now`. The background runner is asynchronous: its steps are the sections between two awaits. What is drawn at random (uuid4, secrets) is an argument. A Python dict is an association
-- list of texts. An exception is a value: `none`, `raised`, or the outcome `died` of a request that
-- gets no answer. What the privileged agent does to the machine is the list of its actions.
--
-- What is a parameter: JSON text, SHA-256, Ed25519 and base64 (Primitives, of which Crypto/Laws
-- assumes that base64 decodes what it encoded, that a public key accepts what its private key
-- signed, that the hash is injective, and that the JSON text of an object with one key determines a
-- value that is a text or a list of texts); regular expressions, case folding
-- and trimming (Regex, Texts, TextTools, Host); ISO dates (from_iso); path resolution, files and
-- processes (Host, System); the handlers of the RPC server; the tables that tell the source of a
-- session (Sessions); what APScheduler accepts (Host of ScheduledTask); what the model, the tools and
-- the user answer (Answer of AgentCore, the provider of StructuredLlm). Crypto/Sample is an instance at which the assumptions hold, and the module
-- Tests of each part runs the definitions on concrete input.
--
-- No definition runs out of fuel: `shrink` of EventBuffer, the one with fuel, gets the length of the
-- list, and the loop removes an item in each step. attempt_from of StructuredLlm counts the attempts
-- that the source counts. The other recursions follow a list.
--
-- Not modelled: sockets, threads, signals and logs; the unsigned V1 actions of the privileged agent
-- that check nothing of what they are given, but for nginx.save_config_atomic;
-- the listings that only format; the language model and the states of the agent loop that wait for
-- it or for a choice; the database layer, the web controllers and the tools.
pub mod Common
pub mod Crypto
pub mod Elevation
pub mod Replay
pub mod InternalRpc
pub mod PrivilegedAgent
pub mod Safety
pub mod Preauthorization
pub mod ToolAuthorization
pub mod EventBuffer
pub mod Context
pub mod ScheduledTask
pub mod BackgroundRunner
pub mod AgentCore
pub mod StructuredLlm
