-- ===== src/Lib.antt =====
-- KnoVa: the provider that admits training and inference requests from a Redis stream, runs each as a
-- Ray job and reports its progress back on a stream.
--
-- A request is a JSON object. `src/tributo_knova/protocol.py` parses it and has
-- `src/tributo_knova/validation.py` check its structure; `broker.py` turns it into an operation of the
-- broker; `execution_driver.py` runs it inside a Ray job; and `reporter.py` writes the events of the
-- execution. `training.py` turns a request into the options of a training and describes its results, and
-- `inference.py` checks the model that an inference applies. This library models these parts.
--
-- Prelude: notation, Booleans and lists. Python: the values of the language that the program works on:
--   Python.Number   integers of any size; floats are a parameter (`Floats`)
--   Python.Text     `str.strip`, `startswith`, `endswith`, `split("/")` and `str` of an integer
--   Python.Value    JSON values; a dict is an association list in its order of insertion
--   Python.Table    a dict from texts to texts
--   Python.Path     `posixpath.join` and `posixpath.normpath`
--   Python.Result   the exceptions that the code raises, and results that may be one of them
--
-- Validation: `src/tributo_knova/validation.py`, a function here for a function there. Checks return or
-- raise; the text of a diagnostic is part of the model. A set is the list of its elements.
--   Validation.Fields       `_fail` `_obj` `_text` `_enum` `_int` `_number`
--   Validation.Source       `_datasource` `_query`
--   Validation.Topology     `_topology`, its two loops as recursions on the tables and the relations
--   Validation.Features     `_column` `_features` `_label_mapping`
--   Validation.Tuning       `_XGB_SEARCH` `_tuning`
--   Validation.Training     `validate_training_payload`, section by section
--   Validation.Inference    `validate_inference_payload`
--   Validation.Safe         which of the checks raise ProtocolValidationError only
--
-- Protocol: `src/tributo_knova/protocol.py`, over Validation.
--   Protocol            `parse_request`
--   Protocol.Schema     the fields of the request classes and their validators
--   Protocol.Admitted   what a request satisfies that is returned, if pydantic does what it documents
--   Protocol.Failure    how a request is rejected
--
-- Broker: `src/tributo_knova/broker.py`, over Protocol.
--   Broker              configuration, admission, preparation, matching of terminal events
--   Broker.Timeout      what was admitted can be prepared, if `exclude_none` does what pydantic documents
--   Broker.Identity     the identity under which a request runs
--
-- Reporter: `src/tributo_knova/reporter.py`. A reporter's attributes are a record, the stream is the list
-- of its entries with the newest first, and a method is a function of both that may raise.
--   Reporter.State      the attributes, and the parameters: time, cancellation, JSON, conversions
--   Reporter.Codes      the tables of phases and codes, `_error_code`
--   Reporter.Script     `_ATOMIC_EVENT_XADD_LUA`: one step on the stream
--   Reporter.Events     `_training_event` `_inference_event` `_duration` `_present`
--   Reporter.Methods    `check_control` `configure_timeout` `publish` `metrics`
--   Reporter.Restore    `_restore_snapshot` `__init__`
--   Reporter.Once       any number of reporters on one stream, in any order
--   Reporter.Deadline   limits of time
--   Reporter.Restart    a reporter that is built on an ended stream
--   Reporter.Failed     the error code of a FAILED event
--   Reporter.Closing    what a returned `publish` of a terminal event guarantees
--   Reporter.Calls      what calls of the methods leave of a reporter, with other reporters between
--
-- Driver: `src/tributo_knova/execution_driver.py`, over Protocol and Reporter.
--   Driver.Failure    `_failure_summary` `_failure_code` `_failure_phase`
--   Driver.Input      `_load_driver_input` `_validate_request`
--   Driver.Main       `_dispatch` and `main`, as actions on the reporter and the stream
--   Driver.Closing    what the driver leaves on the stream
--   Driver.Executed   what its exit code means
--
-- Training: the pure functions of `src/tributo_knova/training.py`, over the values of Python.
--   Training.Checks       `_invalid` `_mapping` `_text` `_positive_int` `_ratio`
--   Training.Runtime      `_runtime_config`: workers and processors
--   Training.Split        `_data_split_config`
--   Training.Evaluation   `_evaluation_config`: the metrics of XGBoost
--   Training.Columns      `_column_mapping` `_columns`
--   Training.Objective    `_objective`
--   Training.Algorithm    `_algorithm_config`
--   Training.Storage      `_storage_config` `_safe_storage_properties`
--   Training.Manifest     `_artifact_manifest` from the loaded bundle on, `_signature_names`
--   Training.Results      `_sample_rows` `_evaluation_metrics`, and the summary in `_completed_payload`
--   Training.Failure      `_classify_training_failure` and the handlers of `execute_training`
--
-- Inference: pure functions of `src/tributo_knova/inference.py`.
--   Inference.Checks    `_invalid` `_mapping` `_text` `_identifier` `_qualified_table` `_native_table_name`
--   Inference.Tables    names of tables, written and read
--   Inference.Storage   `_storage_root` `_join_uri`
--   Inference.Artifacts `_validate_artifacts`
--   Inference.Labels    `_positive_label_index` `_binary_labels` `_decision_threshold`
--
-- Recursion is structural, but for the loop over the causes of an exception: its fuel is one more than
-- there are exceptions, and Training.Failure.Chain shows that this is enough. `str.lower` and `str.upper`
-- are a parameter (`Casing`), of which nothing is assumed. Tests holds runs on concrete requests and
-- streams, with stand-ins for the parameters: decimals for floats, a small codec for JSON, and a function
-- that fills the declared fields for pydantic.
--
-- Not modelled: a reporter that finds on its stream a phase that is not a text, which none writes (its
-- construction is `foreign` and the run of the driver has no result); an entry of the stream that is
-- nested too deeply for json.loads; `phase` and `failed` of the reporter (their bodies are in the broker's
-- package), the approximate trimming of a plain XADD (the model trims exactly), logging, `cli.py`, what
-- runs Ray, the databases and the object stores (the rest of `training.py` and of `inference.py`), and
-- what deploys the program (`deploy`, `scripts`).
pub mod Prelude
pub mod Python
pub mod Validation
pub mod Protocol
pub mod Broker
pub mod Reporter
pub mod Driver
pub mod Training
pub mod Inference
pub mod Tests
