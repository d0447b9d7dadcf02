-- ===== src/Lib.antt =====
-- Verification of the Benchmark Subnet server. Workers submit questions to benchmark sets, poll
-- for questions of others and answer them before a deadline; a question with enough answers is
-- scored, low scorers are suspended, and once a day the rewards are settled and published as a
-- Merkle tree.
--
-- Parts, and the files that model them:
-- - Merkle.antt with Merkle/: internal/merkle/tree.go. Hash holds leaves and pair hashes, Tree the
--   tree, its proofs and Verify, Hex the texts of hashes. A hash is a list of bytes. Keccak-256 is
--   a parameter; where it matters that a hash has 32 bytes this is a hypothesis, and that it has
--   no collisions is never assumed. The loop over the layers runs on fuel, one round for each
--   leaf, which is enough because every round shortens a layer of two or more.
-- - Minhash.antt with Minhash/: internal/minhash/minhash.go. A text is a list of code points; sums
--   and products of uint64 wrap at 2 ^ 64. Slots says what each slot of a signature is.
-- - Float64.antt with Float64/: the float64 arithmetic that settlement.go computes with, on values
--   that are not negative, as fractions rounded to 53 bits, half to even. The exponent is not
--   bounded.
-- - Model.antt: internal/model/model.go and internal/service/errors.go.
-- - Store.antt with Store/: internal/store (store.go, assignment.go, question.go, worker.go,
--   benchmark_set.go, epoch.go, merkle.go, config.go) over the tables of migrations/001_init.sql.
--   An operation is a function from a world to a result and a world. Each SQL statement runs
--   whole, or fails and changes nothing; the list `faults` of the world says which fail, so that a
--   statement about all worlds covers every pattern of failures. Tx rolls back. Meets, Keeps and
--   Reads hold the rules for before-and-after statements, Counting the facts on numbers of rows.
--   Sets has the update of a benchmark set by a map of keys and values; what the driver makes of a
--   value for a column is a parameter, and Fields and Updates say what such an update writes.
-- - Service.antt with Service/: internal/service. Questions is question.go, Polling is poll.go,
--   Answers is answer.go, Timers is timer.go, Scoring and Suspension are scoring.go, Config is the
--   part of config.go that these read, Rootnet is rootnet.go and Onchain is onchain.go. Scoring
--   computes the scores from the replies, Scoring/Run stores them; Table and Worth set the scores
--   against the tables of docs/protocol.md. The clock, the random choice of
--   a question, the order of rows without ORDER BY and the order in which Go walks a map are
--   arguments.
-- - Service/Settlement.antt with Service/Settlement/: settlement.go. The root of the tree computes
--   the statistics and rewards, Tree is buildMerkleTree, Run is Settle. Totals, Payout, Pool and
--   Amounts add up rewards; Keeps and Whole take a statement about the tables through a
--   settlement, which Elsewhere, Trees, Stored and Verified use. The three attempts of a lookup
--   are a loop on a count.
-- - Auth.antt with Auth/: internal/auth/auth.go, internal/handler/worker_auth.go and
--   middleware.go. The middleware is a function from a request to a status or to the worker for
--   the next handler. Signed says what a signed request is, Entry what becomes of one. A text is a list of bytes; SHA-256, Keccak-256, key recovery and
--   addresses are parameters.
-- - Handler.antt with Handler/: internal/handler/claims.go, question.go, answer.go, poll.go and
--   response.go. A handler is an operation that answers with a status; decoded input is an
--   argument. Responses lists the responses to questions and answers.
-- - System.antt with System/: the services as cmd/benchmarkd/main.go wires them.
--   OnAssignmentCreated starts a timer, OnAnswerSubmitted cancels it and starts a goroutine that
--   tries to score. A run is a sequence of events (a request, a timer, a goroutine, a settlement,
--   a restart, failures to come) in any order; each is one operation, which runs without
--   interleaving.
--   Schedule has the times of settlements, Routes the middleware before the handlers; Middleware
--   and Entrance follow a question from its request.
-- - Examples.antt with Examples/: the theorems at concrete input, and tests.
--
-- Numbers: times and durations are nanoseconds since 1970 in UTC. Shares are fractions, and
-- ten-thousandths once stored in their NUMERIC(5,4) columns; the rounding of float64 before that is
-- modelled in a settlement and not in scoring. Identifiers, counters and amounts do not overflow.
--
-- Not modelled: the other HTTP handlers and the pages, loading of the configuration, the
-- administrative and public queries, the requests to the RootNet, to the chain and their
-- cryptography.
pub mod Prelude
pub mod Auth
pub mod Handler
pub mod Merkle
pub mod Minhash
pub mod Model
pub mod Float64
pub mod Store
pub mod Service
pub mod System
pub mod Examples
