-- ===== src/Lib.antt =====
-- The SSI platform. Modelled are the recovery service, services/recovery-service, and the managed keys and
-- the encoding of status lists of the identity service, services/identity-service.
--
-- The recovery service is the social recovery of the managed key of a wallet. An owner names guardians,
-- and a policy says how many of them must approve. A recovery request waits for their approvals, then for
-- a time-lock, and is then executed: enough active guardians' shares must combine to a secret, and the key
-- is rotated by the identity service, through its `recover_wallet`.
--
-- The identity service keeps the keys of holders' wallets. A key is made by an external provider, signs
-- presentations while it is active, is rotated, suspended, compromised or revoked, and is destroyed some
-- time after its owner or an administrator asks for it. A reconciliation brings a key and its provider
-- together again after a failure.
--
-- The recovery service's parts, and the files that model them:
-- * services/recovery-service/app/domain/recovery.py is Recovery.Domain (States, Guardians, Requests,
--   Records) and Recovery.Monad, where its exceptions are values; a `__post_init__` is a function
--   `check_…` that gives the record back or the validation error.
-- * services/recovery-service/app/domain/auth.py is Recovery.Domain.Auth.
-- * services/recovery-service/app/infrastructure/persistence/memory_repository.py is
--   Recovery.Repository: its dictionaries are State, its methods are Guardians, Requests and Evidence.
-- * services/recovery-service/app/application/services/recovery_service.py is Recovery.Service:
--   Guardians, Policies, Creation (`create_request`, `cancel`, the reading methods), Decisions
--   (`approve`, `reject`, `_decide`), Quorum (`_recalculate_quorum`), Execution (`_execute`),
--   Reconciliation (`_reconcile_one`, `reconcile_due`), Audit, and Calls, which is the sequence of
--   calls that the service answers.
-- * Recovery.Environment is what the service is constructed with, and the state that it changes: the
--   repository, the counters of app/application/services/metrics.py, and the number of the next call
--   that leaves the service. The clock, the generators of ids and tokens, the hash, the gateway to the
--   identity service and the secret sharing are parameters. So is `others`, which is whatever other
--   threads do to the repository before each call of it: a repository method holds a lock and is one
--   step, and between two of them any other request may run.
--
-- Recovery.History states the life of a request apart from the code, as a step relation (`Step`), and
-- what follows from it (Table, Safety). Recovery.Guarantee shows method by method that the
-- service makes only such steps, by rules for each way to build a method (Rules, Atomic, Stores, Calls):
-- a method keeps the stored requests sound (`IsSound`) and lets the repository only evolve (`Evolves`),
-- if the other threads do (`IsFair`). Recovery.Promises states what follows for the callers. It reads the
-- decisions that count and their shares off the repository itself (Votes, Authorised), has rules for what
-- a method preserves of it (Preserves, Recount), and holds the sample runs (Sample, Runs) and the
-- promises at them (Tests, Checks).
--
-- The managed keys' parts, and the files that model them:
-- * services/identity-service/app/domain/managed_key.py is Identity.Keys.States (the enumerations and the
--   transition table), Checks (the patterns and validators), Metadata (`ProviderKeyMetadata`) and Record
--   (`ManagedKey`); its exceptions, and those of persistence.py beside it, are Identity.Failures.
-- * services/identity-service/app/domain/holder_wallet.py is Identity.Wallet, as far as keys need it.
-- * services/identity-service/app/application/ports/key_management.py is Identity.Keys.Store and, with
--   app/config/key_management_settings.py and what the service is constructed with, Environment.
-- * services/identity-service/app/infrastructure/persistence/managed_key_repository.py is
--   Identity.Keys.Mongo. MongoDB's collection is a parameter (`Collection`), on documents with the fields
--   of the record; Identity.Keys.Guarantee.Collection states what is relied on of it (`IsCollection`).
-- * services/identity-service/app/application/services/managed_key_service.py is Identity.Keys.Service:
--   Audit, Access (`get_owned`, `list_owned` and the shared helpers), Provisioning (`_provision`,
--   `create_for_wallet`), Lifecycle (`suspend`, `resume`, `revoke` and the like), Rotation (`rotate`,
--   `recover_wallet`), Reconciliation (`reconcile` and its cases), Signer (`ProviderAwareHolderSigner`),
--   and Calls, which is the sequence of calls that the service answers.
--
-- Credential status lists: `encode_status_list` of
-- services/identity-service/app/infrastructure/status_list_document_generator.py is Identity.Status
-- (Encoding), with the bits that its bytes hold (Bits), what it promises (Promises) and a short list
-- (Tests). gzip and base64 are parameters.
--
-- A call of the key service is a function from a world to a result and a world; the world is the state of
-- the key repository and the state of everything else outside, on which the key providers, the wallets,
-- the audit delivery, the clock, the generators and the metrics are any functions. Other clients may write
-- to the collection before each of its operations (`Others`). Identity.Keys.History states the life of a
-- key apart from the code, as a step relation (`Step`), with what the code's writes build (Checked, Moves)
-- and what follows of many steps (Reach, Life). Identity.Keys.Guarantee shows method by method that the
-- service makes only such steps over a repository that keeps the laws of `IsStore`, and
-- Identity.Keys.MongoGuarantee that the MongoDB repository keeps them. Identity.Keys.Promises states what
-- follows for the callers, with a collection for one document (Single), a sample world (Sample, Runs) and
-- the promises at it (Tests).
--
-- Prelude has the lists, texts, dictionaries, the equality of Python, and results and exceptions that keep
-- the state (Effects, Returns), and integers (Integers), which both services share.
--
-- Bounds. Instants are numbers of microseconds in the recovery service and of seconds in the key service,
-- which drops the microseconds, and every instant has a time zone, since the services refuse a naive one.
-- Python's integers have no width. Numbers are natural numbers but where a test on negative ones matters: a
-- policy's time-lock and cooldown and the indices of a status list are integers. Differences that Python
-- would compute below zero are written as a sum on the other side of the comparison. The start of the stale period in
-- `reconcile_batch` is a difference that stops at the epoch. The loops of `_recalculate_quorum` and
-- `_reconcile_one` run 8 and 6 rounds in the code, and the model takes the rounds left as its argument,
-- with the same error at the end; every other loop goes through a list.
--
-- Not modelled: log lines, durations and latencies, the texts of exceptions, the polling loops around
-- `reconcile_due` and `reconcile_batch`, `get_verification_key` of the signer, the fields' names and types
-- in MongoDB's documents, the MongoDB repository of the recovery service, the token verification, the HTTP
-- routes and clients, the PyCryptodome provider of the secret sharing, the rest of the identity service
-- (presentations, status lists but for their bits, OpenID flows, authentication, wallets but for their checks), and the other
-- services of the platform (fraud, gateway, web application, contracts). The `states` argument of the
-- recovery repository's `list_requests` is never given by the service, and left out.
pub mod Prelude
pub mod Recovery
pub mod Identity
