-- ===== src/Lib.antt =====
-- myknowledgebase: a verification library for the workflow core of the knowledge base.
--
-- The program runs declared workflows over intake items. A workflow revision is a declaration of
-- steps, routes, guards and bindings, which is validated when it is loaded. An Execution of a revision
-- materialises a Process for each step; workers claim Processes under leases and fences, run a
-- handler, and hand in one outcome, which is written and routed on. Before a claim, a dispatch policy
-- admits the Processes that wait into pools of bounded size.
--
-- Workflow, and Graph below it, are src/contracts/workflow/models.py: Workflow/Kinds has the
-- enumerations, Workflow/Model the records and the errors, Workflow/Shapes the validators of single
-- records (`validate_shape`, `validate_source_shape`), Workflow/Guards the registered guard values, and
-- Workflow/Definition the validators of the whole (`_unique_steps`, `_validate_routes`,
-- `_validate_graph`, `_validate_bindings`). Graph has the walks that those run: the depth-first `visit`
-- with its marks, the worklist of terminal coverage and `_can_reach`. An adjacency is an association list
-- of keys, its sets lists without repetition. The recursion and the two worklists run on fuel, which is
-- a bound computed from the edges, one unit for each step that can be entered or taken from the
-- worklist; the error for fuel that ran out is not one of the code's. The text of an error is a
-- constructor of `Fault`.
--
-- Process is the row of one Process (table mkb_processes) with the columns of its Execution that the
-- transactions read or write: Process/Updates has one function for each UPDATE statement of the runtime
-- on it, the mark for a cleanup of src/runtime/workflow/runtime_repair.py included, which gives the row
-- it writes where its WHERE holds (the one of src/runtime/task/task_commands.py is `fence_held_row`); Process/Claims is the candidate of `claim_next`,
-- `mark_running`, `heartbeat` and `_fail_process_tx`, Process/Outcomes `accept_outcome`, Process/Recovery
-- one row of `promote_due_retries` and of `recover_expired_leases`, the cancellation of a row, and
-- `restart_process` of src/services/operator_control.py. A transaction gives the rows it leaves, the
-- effects it asks of other parts in order, and its reply, or raises and writes nothing. Process/Step has
-- them as commands of a history, in which any part may also change the Execution. A time is a number,
-- the random delay of a retry an argument. The digest that an outcome should carry and the committer of
-- a deployment are parameters, as is whether the row's policy allows a safe replay. The routing after a
-- failed recovery is an argument, what it returns or raises; after an outcome it is an effect, and a
-- history has no command for an outcome whose routing raised, since that writes nothing. Whether a row is
-- a candidate of the cleanup, beyond its own columns, is an argument of the command.
--
-- Dispatch is src/runtime/workflow/dispatch.py with the admission of src/runtime/workflow/runtime_core.py:
-- Dispatch/Policy has `pool_kind` and `choose_pool`, Dispatch/Admission the occupancies, the release under
-- the priority gate and the three loops of `_admit_waiting_processes_tx` on a table of Processes. An
-- identifier there is its place in the order of identifiers.
--
-- Cancellation is the cancellation of a tree of Executions in src/runtime/workflow/runtime_outcome.py, on
-- tables of Executions, Processes, gates and candidate sets: Cancellation/Tree has the two loops of
-- `_cancel_execution_tree_tx`, `_converge_cancellation_tx` and `request_cancellation`. It uses the row
-- statements of Process. The table of Executions stands in the order of its identifiers. The events and the
-- notice to a parent are not in these tables.
--
-- Outbox is one delivery of src/runtime/workflow/runtime_outbox.py: Outbox/Delivery has its row and the
-- statements of `_lease_outbox_row`, `_complete_outbox`, `_release_outbox` and `_mark_outbox_dead`; a
-- history is a list of calls with their times.
--
-- Structure is src/services/lsrag_compiler up to an accepted structure: Structure/Model has the records,
-- `_span_text`, `_byte_offset` and the text recipe of src/contracts/lsrag/layered_content.py,
-- Structure/Names the identities of blocks, Structure/Tree and Structure/Validate `validate_structure`,
-- Structure/Candidate `normalize_layered_candidate` and Structure/Adopt `_adopt_layered_json`. Text has
-- texts as code points and UTF-8. Construction is `content_full`, `construct`, `validate_construction`
-- and `vectorization_plan`: Construction/Content, Construction/Construct and Construction/Plan. The
-- digests are parameters there, as is the normal form NFC; the shape check of a JSON candidate comes
-- before Structure/Candidate. The metadata of a document, which only its digest reads, is left out.
-- `str.count` and the digits of a number run on fuel: a round takes a character or a digit, and the
-- fuel is the length of the text and the number itself.
--
-- Scatter is src/runtime/workflow/runtime_scatter.py on the rows that it reads: Scatter/Members has
-- `_scatter_expected_members_tx`, Scatter/Children the binding of children to members and
-- Scatter/Converge `_scatter_root_terminal_proof_tx`, the fan-in `_maybe_converge_scatter_root_tx` and
-- the decisions of `_enter_scatter_children_join_tx`. What they ask of the Execution is a verdict: a failure
-- for its integrity (`breaks`), for a child (`fails`), a success, or to wait. A text
-- column that is empty counts as none. The digest of a decision is left out.
--
-- Inference is the calls of models: Inference/Gate has `ConcurrencyGate` and Inference/Attempts `_invoke`
-- and `_legacy_call` of src/runtime/inference/facade.py, Inference/Router `AgentCliRouter` of
-- src/runtime/inference/agent_router.py. What a gate and a transport answer are functions of the attempt or
-- of the provider, and a run gives its calls in order; Inference/Leases joins the gate with the tasks
-- that have leases. The cancellation of a task is an answer of the
-- gate or of the model; one that arrives at the recorder is not modelled. The loop over attempts recurs on
-- the attempts that are left. A cursor of the fallbacks
-- is a count.
--
-- Prelude has the shared names: Boolean tests, results of code that raises, equality tests as an
-- interface, lists as sets and maps, loops, and what a result ensures.
--
-- Not modelled: the digests and JSON forms of definitions, the choice among several candidates of
-- `claim_next`, routing, gates, the release and the review evidence of scattered children, the choice
-- and the payloads of deliveries, the contents of events, the typed requests and responses of models,
-- and all code around databases, networks, browsers and providers.
pub mod Prelude
pub mod Graph
pub mod Inference
pub mod Text
pub mod Structure
pub mod Construction
pub mod Workflow
pub mod Process
pub mod Dispatch
pub mod Cancellation
pub mod Scatter
pub mod Outbox
