-- ===== src/Lib.antt =====
-- SAT-SA with PQC: a supervisory analysis of security operations (satsa) on a platform whose records
-- are hash-chained and content-addressed (qsmlops).
--
-- The parts modelled here, and how they interact. Records of the domain are validated and written as
-- JSON documents; verification packets are stored by their digest and committed to an append-only
-- ledger whose lines form a hash chain; permissions decide who may act; the model registry moves
-- models through their states, and deploys and rolls back approved ones; the job queue leases the work
-- that makes them to workers; the policy engine turns what agents observe into decisions; the key
-- store keeps the keys that sign.
--
-- Domain models satsa/domain: base.py is Domain/Base (`require`), and each record of entities.py,
--   workflow.py, evidence.py and runs.py has a file of its name, with its fields and its functions
--   `validate` (the list of problems), `to_dict` and `from_dict`; `new_id()` is an argument. A time or a
--   score is a whole number of units.
-- Evidence models qsmlops/evidence and qsmlops/artifacts/store.py: Store is `ArtifactStore` over an
--   association list of files; Packet is packet.py; Sensitive is `_contains_sensitive`; Chain is the
--   file of `EvidenceLedger` as a list of lines (`append`, `head`, `verify_chain`); Packets is the packet
--   part of the ledger. `append_packet` is `check_packet` and then `commit_packet`, since the lock is
--   released between the two. Codec is what they take from `json` and `hashlib`: a record of functions,
--   with the laws that a dumped value is one non-empty line which parses to the value, and that a digest
--   has 64 hexadecimal digits. No law says that the hash has no collisions: a theorem that depends on it
--   assumes it of the texts at hand only.
-- Access models qsmlops/security/permissions/model.py: Vocabulary has its constants and roles, Permission
--   has `has_permission`, `require_permission` and `_is_valid_permission`. A set of grants is a list; the
--   unknown grant that is reported is the first one of the list.
-- Registry models satsa/mlops: Artifact is `load` of artifact.py; Tables are the rows of
--   qsmlops/database/migrations.py and the queries on them, as lists; Lifecycle is `transition`, `approve`
--   and `retire` of registry.py, and Deploy is `verify_artifact`, `deploy` and `rollback`. A transaction
--   that raises leaves the database as it was: an operation answers with a new database or an error.
--   The time and the digest of a text are arguments, as is what the artifact storage holds. A row with
--   a key that exists is refused; the unique index on active deployments is not modelled.
-- Jobs models the queue of satsa/mlops/jobs.py: Tables are its rows, Queue is `MLJobQueue` (`claim`,
--   `_owned`, `boundary`, `finish`, `retry`), Requests is `enqueue` and `cancel`, Worker is `run_once`
--   with the handler as an argument, and Steps is the history of a queue: what users ask, and what
--   workers report with the row that a claim gave them. The time of a call is an argument, in whole
--   seconds. Calls are one after another: the `FOR UPDATE SKIP LOCKED` of `claim` is left out.
-- Policy models qsmlops/supervisor/policy.py: Values are its operators on JSON values, Condition and Rule are
--   its classes of those names, Engine is `PolicyEngine`, Defaults is `DEFAULT_POLICY_DOCUMENT`, and Facts is
--   `build_facts`. Facts are a JSON object. `repr`, whose texts only report, is an argument.
-- Keys models qsmlops/crypto/keys.py: Store is `KeyStore` without rotation, Rotation is `rotate_signer` and
--   `rotate_due_keys`, whose n-th generation takes what `fresh n` gives, and Hardware is `sign_with_hsm` and
--   `verify_with_hsm`. The two files are a record of lists; a rotation that fails answers with the files
--   too, since the retirement of the old key stays written. The hardware module is an argument.
-- Each part has its theorems in the files beside its definitions, and its samples and tests in files of
-- those names.
-- Base and Json are the helpers that all parts share; Json/Equal is Python's `==` on JSON values, which
--   takes True and 1 for equal and reads an object in any order. A JSON object is written in the order of its keys,
--   and JSON numbers are whole. A missing key and a value of another type raise different errors.
--
-- All functions are by recursion on lists, texts or documents: there is no fuel.
--
-- Not modelled: `register` and `model_view` of the registry, the scoring of a model and the training
-- code (floating-point numbers), the handlers of the job worker, the analysis workers, `from_file` of
-- the policy engine, the hardware module and the providers of cryptography (bindings),
-- the databases, the HTTP, web and command-line layers, the readers of uploaded files, and the
-- experiments. `str.lower` and `str.strip` are modelled on ASCII.
pub mod Base
pub mod Json
pub mod Domain
pub mod Evidence
pub mod Access
pub mod Registry
pub mod Jobs
pub mod Policy
pub mod Keys
