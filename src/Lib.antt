-- ===== src/Lib.antt =====
-- A transaction firewall for Ethereum: a JSON-RPC reverse proxy that screens every
-- eth_sendRawTransaction before the node sees it, and rejects the whole request if one is
-- blocked or cannot be screened.
--
-- A request's way: internal/proxy parses the body (internal/jsonrpc), decodes each transaction
-- (internal/txdecode) and asks the screener (internal/screen), which has the node simulate it
-- (internal/simulate), builds the view that the rules read (internal/analysis, with the log
-- decoders of internal/events), and lets the engine (internal/risk) run the rules
-- (internal/rules). Rules ask for sanctions (internal/sanctions) and for the age of code and
-- balances (internal/chainstate). cmd/firewall/main.go wires it all.
--
-- Geth: what is called of go-ethereum, as a record of functions that most definitions take
--     first; IsGeth is what is relied on of it.
--
-- Base: shared names. Base/Exec is the monad of code that asks the outside and may fail (Exec
--     W A: from a state W to a result and the next state), Base/Errors holds the error values
--     that the code builds and inspects, Base/Int signed integers, Base/Slices byte slices,
--     Base/Text texts.
--
-- Events (internal/events): event_args and address_arg are eventArgs and addressArg;
--     Events/Transfer, Events/Approval, Events/FlashLoan and Events/Privilege hold
--     DecodeTransfer, DecodeApproval and DecodeApprovalForAll, DecodeFlashLoan,
--     DecodePrivilegeChange. Events/Transfer/Layouts and Events/Privilege/Placement are about
--     where arguments stand.
--
-- Simulate (internal/simulate/simulate.go): CallFrame is two data types, a frame and its list
--     of calls; trace_result is the switch of RPCSimulator.trace on what the node answered.
--
-- TxDecode (internal/txdecode/decode.go): decode_raw_transaction is DecodeRawTransaction; the
--     record Codec holds the decoders of other packages.
--
-- Analysis (internal/analysis/analysis.go): the record Analysis is the struct, and collect,
--     which appends to it, passes it on. Analysis/Flows is flows.go, its map and closures as a
--     Ledger that is passed on; Analysis/Loans is flashloan.go. Analysis/Touched,
--     Analysis/Unique, Analysis/Order, Analysis/Logged, Analysis/Created, Analysis/Flows/*,
--     Analysis/Loans/Pattern and Analysis/Loans/Merge are about them.
--
-- Sanctions (internal/sanctions): Sanctions/Listed is sanctions.go, Sanctions/Any any.go,
--     Sanctions/Cache cache.go, Sanctions/Oracle oracle.go. Sanctions/Listed/Format is about
--     the file's lines, Sanctions/Any/Clean about the order of checkers,
--     Sanctions/Cache/Sharing about concurrent calls, Sanctions/Cache/Remembering about how
--     long an answer is kept, Sanctions/Cache/Steady about an oracle that keeps to its
--     answers, Sanctions/Oracle/Strict about the oracle's answer.
--
-- Chainstate (internal/chainstate): Chainstate/Freshness and Chainstate/Known are RPCFreshness
--     and CachedFreshness of chainstate.go, Chainstate/Balances is balance.go.
--     Chainstate/Freshness/History, Chainstate/Freshness/Ageing, Chainstate/Known/Growing,
--     Chainstate/Known/Steady and Chainstate/Balances/Encoded are about them.
--
-- Rules (internal/rules): a module for each rule, and Rules/Outflows for the OutflowDetector
--     that two of them share; a rule is a record of its name and its Evaluate. Their modules
--     Found, Hits, Paired and Deployed describe what they find.
--
-- Risk (internal/risk/risk.go), Screen (internal/screen/screen.go), JsonRpc
--     (internal/jsonrpc/request.go), Proxy (internal/proxy/proxy.go): the functions of these
--     names. Proxy/Log is what the handler writes to its log. Risk/Blocking,
--     Screen/Unsimulated, Proxy/Passing, Proxy/Rejecting and Proxy/Log/Recorded are about
--     them.
--
-- Strconv: what the code calls of Go's strconv, which is part of the language's library.
--
-- Logging (internal/logging/logging.go): New, up to what is written. Logging/Formats is about
--     the formats.
--
-- Firewall (cmd/firewall/main.go): newScreener's engine; Firewall/Wiring says what it has
--     built, Firewall/Listed and Firewall/Headline follow a listed address through the whole
--     pipeline, and Firewall/Scores bounds the score. Firewall/Decision states what the
--     screener decides as a function of a trace and of what the node and the oracle answer:
--     the points of the trace; its modules Found, Hits and Weighted take it rule by rule,
--     Taken and Forwarded follow it to the verdict and to the proxy's reply. Firewall/Settings
--     is main up to its last setting, and Firewall/Main is main from there to ListenAndServe,
--     with newSimulator, newFreshness, newOracle and newScreener: the record Outside is all
--     that it finds outside, the record World what the running program keeps, and a run that
--     ends in os.Exit is an error. Firewall/Settings/Accepted, Firewall/Main/Served,
--     Firewall/Main/Checked, Firewall/Main/Starting and Firewall/Main/Screened are about them.
--     Firewall/Main/Steady and Firewall/Main/Decided put Firewall/Decision under the program
--     that main starts, with its caches.
--
-- Tests: runs and instances on concrete inputs.
--
-- Correspondence: a pointer or an (x, bool) pair is an Option, a (x, error) pair a Result, a
-- loop a recursion over its slice with the loop's variables as arguments, a map an association
-- list or the list of its keys, a closure that changes captured variables a function on a
-- record of them. An address is the number that its bytes spell, a hash the list of its 32
-- bytes, a big.Int that cannot be negative a natural number. The score of a verdict is a
-- 64-bit int with its wrap-around. The state W of an Exec is whatever the node, the oracle,
-- the clock and the caches keep, and is arbitrary unless a statement restricts it.
--
-- Fuel: the loop of eventArgs takes 32 bytes a round, and its fuel is the number of bytes;
-- decimal numbers have at most as many digits as the number plus one.
--
-- Not modelled: what main itself writes to the log and how a line is laid out, HTTP and what
-- its time limits do, the reading of the environment and of files, the dialling of nodes,
-- URLs, JSON, RLP and signature recovery (parameters), and contexts: a timeout is one of the
-- errors that a call may return.
pub mod Base
pub mod Geth
pub mod Strconv
pub mod Logging
pub mod Events
pub mod TxDecode
pub mod Simulate
pub mod Analysis
pub mod Sanctions
pub mod Chainstate
pub mod Rules
pub mod Risk
pub mod Screen
pub mod JsonRpc
pub mod Proxy
pub mod Firewall
mod Tests
