-- ===== src/Lib.antt =====
-- A verification library for the two services of this repository: the 2FA vault provider under
-- poc/2fa-vault, which signs a spend only once and only within a daily allowance, and the Arkade
-- script machine under pkg/arkade, which decides whether a cosigner signs.
--
-- Parts and files.
--   Prelude.antt, Prelude/: library names, Boolean tests, lists over native numbers, Go's int64 and
--     int32 with their wrap-around, byte slices, and chains of results with early returns.
--   Ledger.antt, Ledger/: poc/2fa-vault/internal/policy/ledger.go. Rows is the issuance table with the
--     CHECK constraints of createPOCSchema and the SQL statements sent to it; Transaction is BEGIN
--     IMMEDIATE, COMMIT and ROLLBACK; Reserve is commitReservation, addOutflow and
--     validateIssuanceStage; Sign is commitSigningStage and issueSequential; Issue is Issue,
--     IssueSequential and sequences of calls of them. Valid, Update, Amounts, Reserved, Written, Step,
--     Refines, History, Persist, Stored, Signers and Success hold the proofs; Examples the tests.
--   Codec.antt, Codec/: the standard library's hexadecimal, base64url and big-endian numbers as the vault
--     uses them; Hex has decodeFixedHex of poc/2fa-vault/internal/provider/session.go.
--   Webauthn.antt, Webauthn/: poc/2fa-vault/internal/webauthn. Scalar is der.go and the ranges of p256.go,
--     Signature is p256.go with SignedMessage and Digest, Assert is Validate of assert.go; LowS and
--     Authentic are the proofs. JSON, DER, the curve, ECDSA and SHA-256 are the record Crypto.
--   Provider.antt, Provider/: poc/2fa-vault/internal/provider/session.go. Challenges is
--     IssuePasskeyChallenge and consumePasskeyChallenge on the map of challenges, Sessions is
--     authenticatePasskeySession with what it calls of service.go, History is sequences of their calls;
--     Entries, Cases, Authenticated, Once and Lives are the proofs, Examples the tests.
--   Arkade.antt, Arkade/: pkg/arkade. Result is its errors; ScriptNum is scriptnum.go, with the
--     proofs in ScriptNum/; Stack is
--     stack.go, with the proofs in Stack/; ComputeLimits is compute_limits.go and chargeOpcode of
--     engine.go, with the proofs in ComputeLimits/; Tokenizer is tokenizer.go and checkScriptParses,
--     with the proofs in Tokenizer/; Packet is emulator_packet.go, with the proofs in Packet/;
--     Machine is the Engine of engine.go: Conditionals, Opcodes and
--     Table are the handlers and opcodeArray of opcode.go, Execute is executeOpcode, the stack
--     checks of Step and CheckErrorCondition, and Nesting, Documented, Counters, Charged, Limits,
--     Minimal and Verdict are the proofs. Vm is the Engine
--     with its scripts: Witness is verifyWitnessProgram, Steps is Step and Execute, Create is NewEngine
--     and Script is ArkadeScript.Execute of script.go; Grown, Ready, Total, Runs, Bound and Whole are
--     the proofs. Ensures holds postconditions. Examples and the Examples of Machine, Packet and Vm
--     hold the tests.
--   Envelope.antt, Envelope/: poc/2fa-vault/internal/policy/envelope.go, the sealing and the checks of the
--     credential envelope; Payload and Binds are the proofs, Examples the tests.
--   Vault.antt, Vault/: the spends of a vault. Prevout is RequireVerifiedPrevout of
--     poc/2fa-vault/internal/vault/tx.go, Money its amounts and those of
--     poc/2fa-vault/internal/provider/classify.go, Classify is classifySpend of classify.go with its
--     packet checks on the Packet of Arkade, Partials is verifyRoutinePartials and Build is
--     BuildRoutineSpend of tx.go; Shape, Amounts, Routine, Signed, Complete, Agrees, Balanced, Assembled
--     and Accepts are the proofs, Examples the tests. The calls of psbt, wire, txscript
--     and ark-lib are the record Chain.
--
-- How the code is rendered. A Go method that changes its receiver and returns an error is a function
-- from the state to a result and the new state; after an error the state is what the code leaves. A
-- database call that may fail reads its failure from an argument, so that every theorem covers every
-- pattern of failures. The two cosigners, the clock, and encoding/hex are arguments. int64 and int32
-- are integers with the wrap-around written out at each operation that can leave the range. The ledger
-- runs one call at a time, as its mutex has it.
--
-- Bounds. Stack theorems ask for fewer than 2^31 items, since Depth converts a length to an int32; the
-- engine stops far below. The loops of the stack are recursions on their own counters. The loop of
-- scriptNum.Bytes has eight rounds of fuel, one for each byte of an int64; a loop over Next has one
-- round for each byte of the script and one more; the loop of Execute has one step for each byte of the
-- scripts and of the witness of the input, and one more. txscript.MaxScriptElementSize and
-- txscript.MaxStackSize are arguments.
--
-- Not modelled: SQLite itself beyond its documented constraints; credentials and their seals, except the
-- credential envelope; HTTP; the bytes of a PSBT and the taproot commitments, whose btcd calls are
-- arguments; the administrative and recovery spends; the step callback of the engine; elliptic-curve
-- and hash functions; arithmetic on math/big and the introspection and asset opcodes, whose handlers
-- are an argument of the opcode table; configuration, generated code and the web client.
pub mod Prelude
pub mod Codec
pub mod Ledger
pub mod Webauthn
pub mod Provider
pub mod Arkade
pub mod Vault
pub mod Envelope
