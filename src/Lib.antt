-- ===== src/Lib.antt =====
-- Verification of the MOLIT data space services (molit-dataspace/src): the publication bridge,
-- the provider's transfer worker, the connector control plane, content negotiation, the XSD
-- validators and the strict JSON parser.
--
-- Bridge models molit-dataspace/src/bridge-runtime. The bridge polls the platform for changes,
-- queues a publication for each, and delivers them under leases. Bridge/Queue.antt is
-- durable-store.mjs: RuntimeState is the JSON state, and enqueue, recover_expired_leases, claim,
-- ack, nack and renew_lease are the functions of those names. Bridge/Queue/Run.antt is what
-- withRuntimeLock does with them: a transaction that throws saves nothing, and neither does one
-- whose state is over the limit of bytes when it is loaded or saved, where the length of the JSON
-- text of a state is an argument. So a run is a list of transactions with the state carried from
-- one to the next.
--
-- Transfer models molit-dataspace/src/transfer-runtime. Transfer/Data.antt holds the events, the
-- bindings and the journal's records with identity.mjs and resolveBinding of
-- binding-registry.mjs; Transfer/Journal.antt the validation of journal.mjs; Transfer/Exec.antt
-- the effects, a state and error monad over the journal on disk; Transfer/Worker.antt is
-- worker.mjs, with process_locked for #processLocked, start_transfer for #start and
-- terminate_transfer for #terminate.
--
-- Bridge/Address models molit-dataspace/src/bridge-runtime/network-address-policy.mjs, which
-- classes the addresses that the bridge may call. Prelude/Strings.antt holds the operations on
-- texts (lists of UTF-16 code units), Bridge/Address/Parse.antt the reading of addresses,
-- Bridge/Address.antt the rules, their tables and the classes. The rows of the generated policy
-- and isIP of node are arguments; a mask clears low bits by division, and numbers in a row are
-- plain decimal digits.
--
-- Caas models molit-dataspace/src/caas. Caas/Data.antt holds the values; Caas/Store.antt the
-- audit chain of store.mjs (append_audit, seal_caas_state, and validate_audit with
-- validate_binding for that part of validateCaasState) and the idempotency ledger;
-- Caas/Tenant.antt a tenant and publicTenant of service.mjs, with the rest of validateCaasState
-- in Caas/Tenant/Validation.antt; Caas/Lifecycle.antt the commands set_desired_state, upgrade and
-- rollback of service.mjs, each as the operation that a transaction runs on its state. The
-- transaction itself is transact of Caas/Store.antt, which is withCaasState of store.mjs: it
-- loads the state, runs the operation, seals the state and saves it. What a load and a save throw
-- on a state (validateCaasState and the byte limit) is its argument check. Caas/Observe.antt is
-- what a provisioner observes and answers, Caas/Reconcile.antt the private method reconcileLocked
-- of service.mjs: it observes, prepares in one transaction, commands the provisioner and finishes
-- or fails in another. Its Env holds what the provisioner answers and what other writers do to
-- the state between the transactions (before_prepare, before_finish); its transactions are sealed
-- as those of the file store and the JSON store, a transaction reads its clock once before the
-- seal and once for it, and an abort is an error of the environment. Caas/Register.antt is
-- register, with the references to secrets of secrets.mjs and the identity policy of config.mjs
-- in Caas/Secrets.antt; secrets are compared as such where the source compares their SHA-256
-- digests.
--
-- Profile models molit-dataspace/src/profile/content-negotiation.mjs. Profile/Accept.antt holds
-- the Accept header and the choice of a media type (acceptRanges, matchSpecificity,
-- selectMediaType), where a quality is counted in thousandths; Profile/Negotiation.antt the index
-- of the resources and the response (resourceIndex, selectContentNegotiationResponse). The URL
-- parser of the platform is an argument, and the shape of the contract is its type.
-- Profile/Xsd.antt models molit-dataspace/src/profile/xsd-lexical.mjs, whose patterns it reads
-- from left to right; a literal is given by the local name of its datatype, and a year by its
-- absolute value.
--
-- Identity/StrictJson.antt models molit-dataspace/src/identity/strict-json.mjs on lists of UTF-16
-- code units: an offset is the rest of the text, failures that carry one code are one error, and
-- the fuel is one more than twice the length of the text, which Identity/StrictJson/Fuel.antt is
-- about. JSON.parse of a string literal and the finiteness of a number are arguments, and a
-- number is kept as its text.
--
-- How the parts interact. The bridge publishes, the transfer worker provisions what was agreed
-- on, and the control plane runs the connectors that both talk to; they share no state, so each
-- part is a tree of its own over the same Prelude.
--
-- Conventions. A JSON object is an association list that keeps the order of insertion
-- (Prelude/Map.antt). A timestamp is the number of its milliseconds, a count is a natural number.
-- What a type of the model rules out (a missing field, a value of another type) is not tested
-- again.
--
-- Parameters. The order of String.localeCompare, the base64url encoding, the SHA-256 digest of
-- canonical JSON, the table of provisioners and the check of a resource reference are arguments.
-- The sort of claim is insertion sort, which is stable like that of the language. The answers of
-- the connector and the provisioner, and a fault at any access to the journal file, are the
-- environment Env of Transfer/Exec.antt; such a fault comes before the file is replaced or after
-- it (the sync of the directory). The log in World records the calls that provision, revoke and
-- acknowledge, not the queries of a status, and is read by no code.
--
-- Bounds. Only the JSON parser runs on fuel; all other recursion is structural. The attempts of
-- an item are compared with 2^53 - 1, the bound of Number.isSafeInteger.
--
-- Not modelled: files, locks between processes (a lock that is held is a fault of the
-- environment), the byte limits of other files than those named above, the scoped store of
-- PostgreSQL, which seals in SQL, the HMAC of the journal, HTTP, TLS and SQL, the schemas of
-- contracts; nor ensureConnector of the connector control plane, the dataspace control plane,
-- discovery, profiles, identity, observability, governance, operations and publication.
mod Prelude
pub mod Bridge
pub mod Transfer
pub mod Caas
pub mod Profile
pub mod Identity
