-- ===== src/Lib.antt =====
-- Verification of the Python parts of ros2-VLM-demo: a ROS 2 system that sends camera frames to a
-- vision-language model, lets the model propose updates of a knowledge graph, replays frames in a web
-- workbench, and distils temporal samples for training.
--
-- Parts and files:
-- - Common, Float, Json: shared names, lists, dicts in insertion order, floats as exact multiples of
--   2^-1074 with NaN and the infinities, and the values of JSON.
-- - KnowledgeGraph: knowledge_graph/schema.py (Schema: records, validate_update, identifiers, the
--   clamp), knowledge_graph/graph_store.py (Store: two dicts and their operations) and
--   knowledge_graph/graph_updater.py (World: the store with the identifiers and clock readings drawn so
--   far; Updater: one definition per operation, the gate of _apply_single, the loop of apply) and
--   knowledge_graph/context_retrieval.py (Retrieval).
--   Updater/Step is the abstract machine, Updater/Invariant the invariant, and the other children hold
--   the proofs about the operations.
-- - Workbench: web_console/experiment_engine.py (History: _truncate_history and _build_prompt;
--   Repetition: _compute_repetition; Experiment: the definition, its validation, _run_single_frame and
--   _run_observation_history), web_console/review_store.py (Reviews, Reviews/Request), web_console/run_store.py (RunId,
--   RunStore), and _run_knowledge_graph and run_experiment (Experiment/Graph), whose texts of the
--   protocol with the model are an interface.
-- - Distillation: distillation/schema.py (Schema), TemporalTarget.to_dict and from_dict (Codec), the
--   search for frame references (References), distillation/validator.py (Validator), split_dataset of
--   distillation/dataset.py (Dataset), and distillation/evaluation.py (Evaluation: compare_sample and
--   evaluate_batch; Controls: the transforms and their targets).
-- - Workbench/Processes: web_console/process_manager.py. A move is what a thread does under one hold of
--   the lock, what it does between two with no lock held (the first test of _stop_process, and the call of
--   on_complete), or what the operating system does; Processes/Call has a call of _stop_process, with what
--   others do between its steps as lists of moves; the theorems are about every order of moves.
-- - Workbench/Profiles: parse_structured_output of web_console/task_profiles.py.
-- - Temporal: flashrt_temporal/. Wire has the structures of ipc_protocol.py as bytes, Receive its
--   recv_exact; Request, Response, Video and Serve have read_request, send_response,
--   build_video_metadata, build_messages and the loop over a connection of flashrt_ipc_worker.py; Client
--   and Window have IpcClient.infer and the frame window of temporal_ros_node.py. Exchange and
--   Serve/Call put client and worker together.
-- - Tests: tests, and the theorems at concrete inputs.
--
-- How the model stands to the code: a Python object is a record, a dict is a list of pairs in insertion
-- order, a method that changes an object returns the changed one, and a result that is raised or
-- rejected is a value. uuid4 and the clock are functions of the number of the draw. A lock is held
-- around each operation, so that an operation is one step. Loops are structural recursions on the lists
-- they run over. Two loops of the worker have fuel instead: recv_exact has one round more than bytes are
-- asked for, for a round that goes on gives a byte, and the loop over a connection one round more than
-- there are headers of 96 bytes in what the peer sends, for a round that goes on takes a header. Numbers
-- of frames and counters are natural numbers, for Python's integers do not overflow; the fields of the
-- structures are cut to their width. Floats are compared exactly; where the code rounds (a tolerance, a
-- score) the rounded operation is an argument. Python's limit of 4300 digits for int of a text is left
-- out. A text that the code looks into is the list of its code
-- points.
--
-- Not modelled: the HTTP server, catalogs over directories, training, the scripts and the
-- C++ nodes, which are input and output over other systems.

pub mod Common
pub mod Float
pub mod Json
pub mod KnowledgeGraph
pub mod Workbench
pub mod Distillation
pub mod Temporal
pub mod Tests
