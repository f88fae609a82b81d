-- ===== src/Lib.antt =====
-- Verification of the BTP SDK: the logic that tracks BTP messages, executes cross-chain calls and
-- presents many networks as one service.
--
-- Parts of the program and the files that model them. Paths are from the repository's root.
--
--   - Base: Boolean tests, lists over the native numbers, `Result` for Go functions that return an
--     error, and `Option` (Base/Faults) for code that may panic.
--   - StringSet: StringSetIndex, StringSetContains, StringSetAdd, StringSetRemove and StringSetMerge of
--     service/spec.go, on slices of names.
--   - Tracker: getLinks of tracker/bmc/tracker.go and the functions it calls. The argument is what
--     FindBySrcAndNsn returned. The loop runs on fuel: each round takes one event out of the list, so
--     one more than the number of events is enough, and the theorem on getLinks shows that the fuel
--     never runs out. The counter of the source may be -1, so the model counts one more.
--     Tracker/Store has onBTPEvent, Relink and what they store, Tracker/Finalize finalizeBlock and
--     dropBlock of the same file, and Tracker/Summary SummaryOfBtpStatusByNetworks of
--     tracker/bmc/repository.go. gorm is a parameter of each.
--   - Rows: the tables that the finality updates read and write, with gorm's Find, Update and Delete
--     as a parameter with laws, and the pass over rows that these updates share. Rows/Memory has
--     tables that satisfy the laws.
--   - Convert: contract/convert.go and the integers of contract/spec.go. Go's dynamic values are one
--     data type `Value`. A conversion fails with an error or with a panic; the texts of errors are
--     left out. What it calls in other packages (big integers as text, base64, hexadecimal) is
--     the parameter `Outside`. Convert/Primitive converts single values, Convert/BySpec by a
--     specification, Convert/Untyped without one; Convert/Equal is EqualParam.
--   - Finality: DefaultFinalityMonitor of contract/monitor.go. The map from subscriptions to channels
--     is a list of numbers with a store of channels; a call is a step, and the goroutine that _start
--     leaves running contributes the steps op_notify. A panic is `none`. Finality/Verdict has Last
--     and IsFinalized over a supplier, and what a supplier promises; Finality/Supplier has EqualID, Latest and
--     HeightByID of contract/eth/monitor.go and contract/icon/monitor.go, with the clients as parameters.
--   - AutoCaller: the handlers of autocaller/xcall/autocaller.go for calls (Call) and rollbacks
--     (Rollback), with NewCall (CallRow), NewRollback (RollbackRow) and SaveIfFoundStateIsNotDone of
--     autocaller/xcall/repository.go, TaskState of autocaller/factory.go (Task), and SaveIf of
--     database/repository.go (Repository). gorm is the parameter `Table` with the laws `IsTable`;
--     Memory has a table that satisfies them. What Invoke and GetResult answer is an input of each
--     step, and an awaited result is an entry of a list, taken in any order. A handler is one step.
--     AutoCaller/Finalize has finalizeCall, finalizeRollback and dropBlock over the tables of Rows,
--     AutoCaller/Params the conversions of event parameters, over Convert.
--   - Spec: TypeSpec, EqualsTypeSpec, EqualsNameAndTypes and OptionalInputs of contract/spec.go. A map
--     is an association list, and its keys are unique where a theorem says so.
--   - Service/Method and Service/Event: MethodSpec, EventSpec and their overloads in
--     service/spec.go, with merge, MergeOverloads (methods) and CopyEventSpec. The sets of network
--     types are those of StringSet, the comparisons those of Spec. Service/Struct has StructSpec.
--   - Service/Whole: Spec with Merge, mergeStructs and ResetStructs of service/spec.go, over Service/Method,
--     Service/Event and Service/Struct. The structs that a contract's types refer to are finite trees.
--   - Service/Merged: newMethodSpec, Invoke and Call of service/mergedservice.go, over the methods of
--     Service/Method, and newEventSpec over the events of Service/Event (Service/Merged/Events). The
--     MergeHandler and the service below are parameters.
--   - Service/Signer: PrepareToSign, Sign and Invoke of service/signer.go. The wallets, the codecs of
--     the options and the service below are parameters; a call of that service takes a world.
--   - Service/Default: DefaultService and MultiContractService of service/service.go. Handlers of
--     contracts and the adaptor that makes them are parameters.
--   - Tests: the theorems at concrete inputs.
--
-- The locks of the source make each modelled handler of the monitor and each SaveIf one step. The
-- handlers of the auto-caller run in one step each here; their interleaving below this level is not
-- modelled. Heights are natural numbers; time stamps, logs and metrics are left out.
--
-- Not modelled: the rest of the adaptors of Ethereum and ICON, the HTTP server, client and OpenAPI document,
-- the command line, the connection to the database, ParamToGoType, which builds Go types by
-- reflection, the goroutines that monitor events, and the order in which Go iterates over maps.
pub mod Base
pub mod StringSet
pub mod Tracker
pub mod Finality
pub mod Spec
pub mod Service
pub mod AutoCaller
pub mod Tests
pub mod Convert
pub mod Rows
