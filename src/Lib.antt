-- ===== src/Lib.antt =====
-- StealthWage: payroll streams whose terms stay sealed. An enclave extension (typescript/src) keeps
-- the terms confidential and signs how much of a stream has accrued; the contract
-- contracts/StreamVault.sol holds the funds and pays against these signatures.
--
-- The parts, and the files that model them:
--   Encoding   typescript/src/base/encoding.ts: hexToBytes, bytesToHex, stringToBytes32Hex and
--              bytes32HexToString.
--   Json       JSON.parse and JSON.stringify as the program uses them, with the conversions between
--              JSON, UTF-8 bytes and hex text.
--   Protocol   typescript/src/shared/protocol.ts: terms, commitment, rates and accrual, digests.
--   Handler    the results of handlers, and the monad of a handler's early returns.
--   Stream     typescript/src/app/streamHandlers.ts: `authorize`, in the steps of its comments.
--   Framework  typescript/src/base/types.ts: the registry of handlers and `lookup`.
--   App        typescript/src/app/handlers.ts, abi.ts and config.ts: state, greetings, `register`.
--   Server     typescript/src/base/server.ts: handleRequest, processAction, processState, serve.
--   Vault      contracts/StreamVault.sol: fund, withdraw and cancelStream on one stream, all functions
--              on the whole storage, and the digest that the vault checks.
--   Client     frontend/lib/enclave.ts and chain.ts: the action that the frontend posts, its reading of
--              the answer, the block window and the queries for a stream's sealed terms.
--   Page       the logic of frontend/app/stream/[id]/page.tsx (loadChain, unlock, withdraw, available),
--              of frontend/app/verify/[id]/page.tsx (the verdict on presented terms), of
--              frontend/app/page.tsx (load) and of frontend/app/app/page.tsx (draft, submit).
--   Link       the parts together: the frontend's bodies at the server, the registry and `authorize`,
--              and the enclave's answers at the frontend.
--   Script     typescript/scripts: the envelopes and the main functions of e2e-coston2.ts,
--              test-settle.ts and create-demo-stream.ts; the .env files of gen-tee-keys.ts;
--              frontend/scripts: check-enclave-client.ts, up to its printing.
-- An action reaches the server as JSON with a message in hex; the server looks up a handler by the
-- message's operation type and command, and sends back what it returns. The stream handlers share
-- the protocol with the vault: what they sign is the digest that the vault recomputes.
--
-- State is passed explicitly: a handler maps the state of the module to a result and a new state,
-- and an error that nothing catches is a value too. A text is the list of its UTF-16 code units,
-- and a bigint a signed integer without bound. Amounts of the vault are natural numbers, with the
-- bound of uint128 checked where Solidity checks it.
--
-- Parameters stand for what the repository does not hold: viem's ABI coding and keccak256 (Viem,
-- with the laws that the protocol relies on), eciesjs and viem's signatures (Enclave), the error
-- that JSON.parse throws, the clock, the environment, the outcome of token transfers and the address
-- that ecrecover gives. For the frontend they are the wallet, the RPC node, the explorer and fetch.
--
-- The reader of JSON runs on fuel, twice the length of the text and two more: every step of it
-- consumes a character or goes from a value to its parts. Json/RoundTrip shows that the fuel is
-- enough for every text that `stringify` prints.
--
-- The handlers are functions on the state, as if each ran on its own. In Server/Queue they are jobs with
-- `await`s, which may end, be rejected or wait for ever: each call of `serialize` makes a promise that
-- waits for the one in `queue`, and the event loop goes on with any promise that can.
--
-- Not modelled: logging, sockets,
-- letters beyond ASCII in changes of case, numbers in JSON beyond their text and their truthiness,
-- the reordering of properties whose names are array indices, the guard against
-- reentrancy and the events of the vault, rendering, and the scripts that only generate vectors,
-- serve, or check calls of libraries.
pub mod Prelude
pub mod Encoding
pub mod Json
pub mod Protocol
pub mod Handler
pub mod Stream
pub mod Framework
pub mod App
pub mod Script
pub mod Server
pub mod Vault
pub mod Client
pub mod Link
pub mod Page
