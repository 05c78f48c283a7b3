-- ===== src/Lib.antt =====
-- The Aegis parametric insurance extension: an insurer registers a confidential payout model with a
-- trusted execution environment, an oracle attests the rainfall of a policy's window, the enclave
-- scores the reading, and its signed decision is relayed to a settlement contract.
--
-- The parts, and the files that model them:
--   * go/pkg/types (Model): the model, the two payloads and `Validate` are in Model.antt; the ABI
--     tuple codec of register.go is Model/Codec.antt, and `DecodeRegisterModelRequest` is
--     Model/Register.antt. A *big.Int is an `Option ℤ`, with `none` for nil.
--   * go/internal/extension (Extension): `evaluatePayout` is `evaluate_payout` in
--     Extension/Scoring.antt, over `math/big`'s operations in Common/Int.antt; the state, the map of
--     models, `buildResult` and `decryptViaNode` (utils.go) are Extension/Actions.antt;
--     `processRegisterModel`, `processEvaluate`, `processPolicy` and `processAction` are
--     Extension/Handlers.antt, each a function from the state and the action to the state and the
--     response. The mutex makes each access to the map one step; `run` is a sequence of actions.
--   * go/tools/pkg/payout (Payout): `DecodeDecision` and `RecoverTeeID` are Payout/Decision.antt,
--     and `Settle` and `SettlementOf` are Payout/Settle.antt.
--   * go/tools/pkg/validate (Validate): the report is Validate/Report.antt, the two readers of
--     extension.env are Validate/EnvFile.antt, and the checks are Validate/Deploy.antt,
--     Validate/Registration.antt, Validate/Services.antt and Validate/Testing.antt, with the texts
--     of their messages. What they use of Go's strings and regexp is Validate/Text.antt.
--   * go/tools/pkg/fdc (Fdc): of web2json.go, `VotingRoundID` is Fdc/Rounds.antt,
--     `EncodeAttestationName` and `hexutilDecode` are Fdc/HexText.antt, `DecodeProof` is
--     Fdc/Proofs.antt, `FetchProof` and `WaitForProof` are Fdc/Polling.antt, and `RequestFee`,
--     `SubmitRequest` and `DecodeWeatherReading` are Fdc/Submit.antt, and `PrepareRequest` and `post`
--     are Fdc/Prepare.antt; openmeteo.go is Fdc/Feed.antt.
--   * go/tools/pkg/fccutils (Tee): policy_consistency.go is Tee/Policy.antt, and `RegisterNode` of
--     registration.go is Tee/Registration.antt, which writes each call that it makes to a journal, on which
--     the answers to the next one may depend; the
--     on-chain calls under it, and `AddTeeVersion`, are Tee/OnChain.antt, and
--     `AvailabilityCheckResult` and the calls as `RegisterNode` makes them are Tee/OnChain/Node.antt;
--     `ActionResult` of tee_calls.go, with `waitForActionResult` of the command, is Tee/Results.antt.
--   * go/tools/pkg/support and go/tools/pkg/utils: `CheckTx` is Support.antt, the texts of reverts
--     (also of fccutils/revert.go) are Support/Revert.antt, and `sendInstruction` and
--     `SendRegisterPolicyTrigger` are Instructions.antt.
--   * go/tools/cmd/aegis (Agent): of policy.go, `loadModel` and `newPolicyID` are
--     Agent/Policies.antt, `assertSealed` is Agent/Sealing.antt, and the records and their state file
--     are Agent/Records.antt. `currentPolicy` is Agent/Minting.antt; pool.go is Agent/Pool.antt.
--     Of cmd_evaluate.go, `attest` and `waitForProof` are Agent/Attest.antt, `scoreInEnclave` is
--     Agent/Score.antt, `settleDecision` and `runEvaluate` are Agent/Evaluate.antt. A run changes a
--     `Session` (Agent/World.antt): what is outside, the state file, the transactions sent, the
--     records in memory and the current one; its steps are an `Exec` (Common/Exec.antt), which keeps
--     what was changed before a failure. `bindTrigger` and `sealModel` of cmd_register.go are
--     Agent/Register.antt, and `runRegisterModel` over them is Agent/Registration.antt. Of
--     cmd_reregister.go, `restoreTargets`, `skipReason`, `modelFor` and `checkEnclaveRegistered` are
--     Agent/Restore.antt, and `runReregisterAll` over them is Agent/Restoring.antt. config.go is
--     Agent/Config.antt, webconfig.go is Agent/WebConfig.antt, and the catalog of policy.go is
--     Agent/Catalog.antt.
--   * go/tools/cmd/run-test (EndToEnd): the end-to-end test. Its policies, its model and what it reaches
--     are EndToEnd/Network.antt, `expectedPayout` is EndToEnd/Payout.antt, the steps up to the proofs
--     and the checks on the contract are EndToEnd/Steps.antt, the decision, its settlement and the replay
--     are EndToEnd/Settling.antt, and `main` is EndToEnd/Program.antt.
-- Pipeline.antt puts the enclave and the relay together. Examples.antt holds concrete inputs.
--
-- How Go is read: a call returns a value, an error or a panic (`Outcome` of Common/Fallible.antt); a
-- nil dereference and a division by zero are panics. Byte strings are lists of numbers; a text is a
-- String of code points. A uint64 is a number, and where the code adds to one the sum is taken
-- modulo 2 ^ 64. Errors are kept as data that tell which one it was, and as texts in the checks,
-- whose messages are printed. Records of policies are values, and the source's are pointers: on a
-- state file with a record under another name than its own, the source changes both entries, and the
-- model one. On every other file the two agree.
--
-- Parameters, with what the code relies on as laws where a theorem needs them: go-ethereum's ABI
-- coder (`Abi`, `AbiLaws`), its hashes and signatures (`Crypto`, `CryptoLaws`), the JSON reader and
-- writer, the tee-node's decryption endpoint and instruction parser (`Node`), the chain and the
-- contract bindings (`Chain`, `Client`, `Registry`, `Allowlist`), the environment and the network
-- (`Machine`), the calls of a registration (`Calls`, `MachineLaws`), the answers that a poll
-- receives (`Poll`, `Waits`), the FDC hub (`Hub`), the contracts that a command calls (`SenderCalls`, `TriggerCalls`,
-- `PoolCalls`, `BindCalls`, `SealCalls`, `MachineChain`), the codec of the state file (`Json`,
-- `JsonLaws`) and the disk (`Disk`), the file system, godotenv and the shell of a command
-- (`Machine` and `Sets` under Agent/Config), and what the restoring of models and the end-to-end test reach (`Restorer`,
-- `Network`). `Outside` gathers those of a run of evaluate: what each answers at a state of the
-- outside, and the state that a call leaves.
-- Two map iterations of Go, whose order is not defined, are two lists that need not agree.
--
-- Fuel: only `decimal`, which writes a number's digits, runs on fuel; it starts with one round more
-- than the number, and each round divides it by ten. The loop over the extensions, the fifteen GETs of
-- an action result and the three attempts of `attest` and `collectProof` count their rounds down, and
-- the polling loops run over the list of the rounds that they are given; the last one of these is
-- behind the deadline.
--
-- Not modelled: the HTTP plumbing of the handlers and of the servers' start, what is only printed and
-- the terminal's colours, the flags of the commands, the web config's update inside `runRegisterModel`
-- (the update itself is Agent/WebConfig.antt), the status and reveal commands, the deployment of contracts and
-- the registration of an extension, the other commands under go/cmd and go/tools/cmd, the contract
-- bindings, and the Solidity, TypeScript and Python code.
mod Common
mod Examples
pub mod Model
pub mod Extension
pub mod Payout
pub mod Validate
pub mod Fdc
pub mod Tee
pub mod Support
pub mod Instructions
pub mod Agent
pub mod Pipeline
pub mod EndToEnd
