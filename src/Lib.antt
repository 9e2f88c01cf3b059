-- ===== src/Lib.antt =====
-- Verification of the GraphQL server of the Cartesi rollups high-level framework.
--
-- The server keeps the inputs of a rollup and the vouchers, notices and reports that it produces in
-- an SQL database, and serves them page by page. Its parts, and the files that model them:
--
-- - Pagination (internal/commons/pagination.go): `compute_page` is ComputePage, `encode_cursor` and
--   `decode_cursor` the cursors. An `int` that may be negative is an integer, and `Atoi` refuses what
--   is not in the range of 64 bits.
-- - Store (internal/convenience/repository/sql_executor.go, transaction_helper.go): the database, as
--   lists of rows. Writes go to the open transaction if the context carries it, reads see what is
--   committed, as `c.Db` is used in the code. The engine may refuse any statement: `faults` says
--   which.
-- - Repository (internal/convenience/repository): a module per table, one function per method.
--   Repository/Query holds the loop over the filters, `Count` and `FindAll`, which the code repeats
--   in each repository.
-- - Service (internal/convenience/services/service.go): insert or update.
-- - Decoder (internal/convenience/decoder/decoder.go, internal/convenience/adapter/adapter.go):
--   hexadecimal payloads and selectors. A slice out of range is the error `panic`. Decoder/Selector
--   compares the two handlers of outputs.
-- - Rollup (internal/model): the state machine that hands inputs to the application and collects its
--   outputs. It writes through the repositories, and its vouchers and notices go through the decoder
--   and the service. Rollup/State has the states and how they end, Rollup/Outputs what they collect,
--   Rollup/Operations the methods of NonodoModel; Rollup/Steps is the relation of its steps. Every
--   method of NonodoModel holds its mutex, so that a run is a sequence of steps; the database may be
--   changed by others in between (the step `database_changes`). The pointer of the inspect state to
--   the inspect is its position.
-- - Reader (internal/reader): Reader/Connection has the connections and their page information
--   (model/pagination.go), Reader/Conversions the nodes (model/conversions.go, model/types.go), and
--   Reader/Adapter the queries of AdapterV1 (adapter_v1.go). Reader/Schema is the interface of the adapters
--   (adapter.go) and the resolvers (reader.resolvers.go), with the query for vouchers with a filter in
--   Reader/Resolver; Reader/Coherent has the laws of the interface, which both adapters keep, and
--   Reader/Nested a query that uses them. Reader/Walk is a client that reads page after page.
-- - Synchronizer (internal/convenience/synchronizer/graphile_synchornizer.go, graphile_fetcher.go): a
--   fetched batch goes through the decoder into the database in one transaction, and the cursors of
--   the fetcher move on. The answer of the node is the argument. Synchronizer/Polling (synchronizer.go,
--   voucher_fetcher.go) is the older worker, which asks for vouchers only and uses no transaction;
--   Synchronizer/Restart is about a restart of it.
-- - Listener (internal/convenience/output_exec_listener.go): `on_event` is OnEvent; Listener/Watch
--   is WatchExecutions with the reads of past logs, over a list of the sessions that it goes through. The
--   values of an event are those of the ABI in internal/contracts/application.go; Listener/Unheard is about
--   what OnEvent makes of them.
-- - Reader/AdapterV2 (internal/reader/adapter_v2.go, input_blob_adapter.go): the queries of AdapterV2, and
--   the adapter of the blobs of inputs; Reader/Inputs compares the two adapters.
-- - Inputter (internal/sequencers/inputter/inputter.go): `add_input` is addInput, `read_past_inputs`
--   ReadPastInputs; Inputter/Watch is watchNewInputs, over a list of the sessions that it goes through.
--   It adds inputs to the model of Rollup.
-- - DataAvailability (internal/dataavailability): Commitments is celestia_commits.go, Convert convert.go,
--   and Celestia celestia.go with the errors of http_custom_error.go. Numbers of type uint64 wrap around
--   where the code subtracts or adds them. The answers of the nodes are the fields of `Remote`.
-- - Http (internal/rollup/rollup.go, fetcher.go, internal/inspect/inspect.go, and
--   internal/dataavailability/syscoin.go): Http/Outputs has the handlers of the outputs, Http/Finish the
--   one of /finish, Http/Inspect those of /inspect and Http/Gio the one of /gio; Http/Convert is what the
--   application is handed. A handler is an action on the model of Rollup. It gives the model free between
--   two of its polls, and the argument `others` says what has become of the model then.
-- - Echo (internal/echoapp/echoapp.go): the application that answers each advance, on a client of the
--   rollup API. Echo/Node is that client on the handlers of Http; Echo/Answers, Echo/Stored, Echo/Waiting
--   and Echo/Progress follow a round, and then all rounds, through the node.
-- - Wiring (internal/nonodo/nonodo.go, main.go): the options, and the workers that NewSupervisor and
--   NewSupervisorHLGraphQL put together (Wiring/Served, Wiring/Chain) and, together with Supervisor, how they
--   start (Wiring/Ready); Wiring/Command has the flags and the
--   checks of `run` (Wiring/Checked), and Wiring/Celestia the commands that submit a payload. A worker is the
--   values that it is made of; what it does is the module of its name.
-- - Release (internal/commons/handle_release.go, utils.go, anvil.go, internal/devnet/anvil.go): Anvil is looked
--   up, downloaded and extracted, as actions on the files; Release/Again and Release/Truncated are about a
--   second installation.
-- - Supervisor (internal/supervisor/supervisor.go): the start and the end of the workers, as a step
--   relation.
-- - Data (internal/convenience/model/type.go, internal/model/types.go): the records.
-- - Base: fallible code (`Result`, and `Exec` with a state), integers, texts as lists of bytes, and
--   lists measured by native numbers. Errors are told apart by what the code tells apart.
-- - Tests: runs of the theorems at concrete values.
--
-- External is what the code takes from elsewhere at many places: go-ethereum's texts of addresses and bytes, its ABI
-- decoder, and the SQL engine's comparison of an integer column with a text. It is a parameter of all
-- that uses it, with the documented round trips as laws; Tests/World fulfils them.
--
-- Fuel: the client of Reader/Walk has one unit for each request; the number of rows, and at least one,
-- is enough. The scan of DataAvailability/Commitments has one unit for each window and one more; what is
-- enough is shown in DataAvailability/Returns. The poll of Http/Inspect, which the code does not bound, has
-- one unit for each poll. The echo application, which runs forever, takes the number of its rounds. The poll of Http/Finish is bounded by the code. All other loops are structural
-- recursion.
--
-- Not modelled: SubmitBlob and
-- CallCelestiaRelay, and GetProof of the adapters, which are remote calls; and what has no logic of its
-- own to state: generated code, logging, processes and signals, the development
-- network. SHA-256 is a parameter. InputRepository.FindByStatusNeDesc is left out, since its statement
-- names a column that the table does not have. Indices, times and block numbers are natural numbers without an
-- upper bound, but where the code computes with them in 64 bits: the conversions between int, int64 and uint64
-- of indices, and of the times in the decoder and the inputter, are the identity on them, and a negative index in a query is not
-- modelled. A byte slice has no capacity beyond its
-- length.
pub mod Base
pub mod External
pub mod Data
pub mod Pagination
pub mod Store
pub mod Repository
pub mod Service
pub mod Decoder
pub mod Rollup
pub mod Reader
pub mod Synchronizer
pub mod Listener
pub mod Inputter
pub mod DataAvailability
pub mod Echo
pub mod Http
pub mod Supervisor
pub mod Wiring
pub mod Release
mod Tests
