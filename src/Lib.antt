-- ===== src/Lib.antt =====
-- The proposal service: a library of the models of crates/byos, crates/byos-common,
-- crates/proposal-dto and crates/subsolver.
--
-- Sub-solvers submit signed proposals that settle an order of a batch auction. The service stores
-- them, validates them in the background, bids the best one of each order to the driver, follows
-- the settlement's fate by the driver's notifications, and debits the escrow of a sub-solver whose
-- settlement reverted or was abandoned. All parts meet in the store: a Postgres database that each
-- call changes in one statement or one transaction, and an audit channel that it sends evidence on.
--
-- The parts and their files:
--   Domain/* model crates/byos/src/domain/*.rs: the proposal and its statuses, the verdicts, the
--     order with its validation envelope (`check_envelope`), the score (`score_proposal`,
--     `scaled_to_fill`), the gas cut (`size`), the penalty amounts and the audit events.
--     Domain/Uid is the text of an order uid.
--   Common/Trampoline, Common/Settlement and Common/Eip712 model trampoline.rs, settlement.rs and
--     eip712.rs of crates/byos-common/src, Common/Dto the bodies of crates/proposal-dto.
--   Infra/Storage/* model crates/byos/src/infra/storage.rs: Rows is the row codec, Db the tables of
--     crates/byos/migrations with the SQL, Ops, Outcomes and Queues the writing operations of
--     `ProposalStore`, each under its name in the source, and Queries the reads. Trail is the
--     abstract view: what the audit trail says of a proposal's status. Lifecycle has the calls as
--     steps of one relation, `Step`, and what is reached by them, `Reach`.
--   Infra/Api/Solve and Infra/Api/Notify model the handlers of crates/byos/src/infra/api/solve.rs
--     and notify.rs, Infra/Api/Routes those of routes.rs with the conversions of dto.rs in
--     Infra/Api/Dto and the statuses of error.rs in Infra/Api/Errors, and Infra/Api/Auth the bearer
--     check of mod.rs.
--   Infra/Penalty models a tick of crates/byos/src/infra/penalty.rs, Infra/Validation a tick of
--     crates/byos/src/infra/validation.rs, Infra/Retention the loop of retention.rs and Infra/Audit
--     the writer of audit.rs.
--   Infra/Orderbook models crates/byos/src/infra/orderbook.rs. Infra/Blockchain models the files of
--     crates/byos/src/infra/blockchain: Escrow, Simulation and Operator each the file of its name,
--     and Judge validator.rs, with the steps of the simulation's validator in Judge/Steps and the
--     composition of the two validators in Judge/Composite.
--   Subsolver/* model crates/subsolver/src: Routing and Proposal the files of domain, Wire the body
--     of a submission in infra/byos.rs, Client the client of that file, with the handlers behind
--     it in Client/Service, and Run the loop of run.rs.
--   Prelude has the tests, lists, results and machine integers that the parts share, and Tests the
--     properties at concrete inputs.
--
-- How the models read:
--   Addresses, hashes, token amounts and order uids are natural numbers, and bytes are lists of
--   them. Checked and saturating operations on `u64` and `U256` are written out with their limits;
--   an `i64` id is only compared, so it is the number of its bit pattern.
--   A text column is the value that it parses to, or is unreadable.
--   Each store operation takes `Faults`, which says for each of its database calls whether it
--   fails. A failed operation leaves the tables alone, since an open transaction rolls back. The
--   audit channel has its writer, and the trail has the latest event first, without its time. A
--   call sends its event in the step that commits, so the trail is in the order of the commits; the
--   code sends after the commit, and calls that race may then send in another order.
--   `now()` is the field `clock` of the database. A sequence is never negative and fits `u64`, so
--   the branch of `insert` for such an id is left out, and so is the gap that a failed insert
--   leaves in a sequence. Left out as well are the panics of `insert` for a submission whose gas is
--   beyond `i64`, which the handlers never make, and of the audit writer for an id beyond `i64`.
--   A round of `/solve` numbers its solutions by their position; the conversion of that number to
--   `i64` cannot fail for a list that fits memory, so its panic is left out.
--   Most loops are over the lists that the code loops over. A loop over the store takes a stream of
--   faults, one for the calls of each of its items. The retries of the audit writer have fuel,
--   which is enough where it is at least the number of inserts in a row of which one lands; the
--   retention loop has the number of its sweeps.
--   Code that calls the network takes its state and gives the state after, so each call may answer
--   by what was called before. Caches are association lists.
--   A handler of the API answers with its status, or with an error that has a kind, and the
--   database after. The clock that `create_proposal` reads is an argument of it.
--   A tick of the validation loop resolves its verdicts in an order that is an argument. A tick is
--   one run without other calls between its own; `Step` is what allows any interleaving.
--
-- Parameters, for code outside the repository: the ABI encoders (`Abi`, `Calls`, `Encoders`), the
-- hashes and the signature scheme (`Crypto`, `Signer`), the codecs of hexadecimal and decimal text
-- (`Codec`), the parser of an auction id (`parse_i64`), the HTTP clients (`Http`, `Api`, `Remote`)
-- and the RPC client (`BalanceOf`, `Provider`, `Wallet`). The traits `DebitEscrow`,
-- `ValidateProposal` and `FetchOrder` are records, which the implementations fill. What is asked of
-- a parameter is the hypothesis of a theorem: `IsCodec` is that the codecs read back what they
-- print, `IsSigner` that a signature recovers to its signer.
--
-- Not modelled: logging; timers and timeouts; URLs and JSON; the conversion of a floating-point
-- price; the internal route table, listeners and shutdown; construction, command lines and
-- configuration; hooks.rs, which nothing uses; the tests and the end-to-end suite.
pub mod Prelude
pub mod Domain
pub mod Common
pub mod Infra
pub mod Subsolver
pub mod Tests
