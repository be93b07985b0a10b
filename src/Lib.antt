-- ===== src/Lib.antt =====
-- Verification of Lido, a solo mining pool. These files model the pool's side of the Stratum V2
-- protocol: the binary codec, the messages, the Noise handshake, the frames with their encryption, the
-- sessions with their channels, jobs and shares, the extranonce prefixes, and the target arithmetic
-- that accepts shares and blocks; and its side of Stratum V1: the sessions, the pipeline of templates
-- and jobs that both protocols share, the coinbase of a job, the share statistics, and the ports.
--
-- A TCP connection delivers chunks of bytes. The first 64 bytes are Act 1 of the handshake; behind it
-- Sv2FrameReader decrypts the chunks with the session's cipher state and cuts them into frames, and a
-- frame's payload is read by a BufferReader into a message. Answers go the other way: a BufferWriter
-- makes the payload and Sv2FrameWriter the frame. StratumV2Client opens channels, whose numbers come
-- from StratumV2Service and whose extranonce prefixes from its Sv2ExtranonceManager, sends them jobs,
-- and judges the shares, with DifficultyUtils for the targets.
--
-- Base: lists, byte order, tests and shared lemmas.
-- Outcome: exceptions as values, and the monad of methods that change an object.
-- Node: what Node.js supplies (texts and UTF-8, 32-bit floats, uninitialised memory), a parameter.
-- Codec: src/models/sv2/sv2-binary-codec.ts. Read and Write are BufferReader and BufferWriter, one
--   function per method; Reading, Writing, Codes and RoundTrip carry the proofs.
-- Messages: src/models/sv2/sv2-messages.ts and src/models/sv2/sv2-extended-messages.ts. An interface
--   is a record, serializeX and deserializeX are serialize_x and deserialize_x.
-- Noise: src/models/sv2/sv2-noise.ts. CipherState is Sv2CipherState, Symmetric the hash state of both
--   handshake classes; Certificate is SignatureNoiseMessage, and Handshake has Sv2NoiseSession and
--   Sv2NoiseInitiator with processAct1, generateAct1 and processAct2. Crypto is the parameter for the
--   hashes, ciphers, key exchange and signatures. Ciphers and Agreement prove the handshake; Transport
--   makes both directions of a connection sessions of the frames, and Conversation composes them.
-- Frame: src/models/sv2/sv2-frame.ts. Reader is Sv2FrameReader, whose loop is cut into its two phases;
--   Writer is Sv2FrameWriter. The closures over the Noise session are functions on a state, and Secure
--   names what the frames need of them; Arrival, Passes and Reassembly are about TCP reassembly.
-- Extranonce: src/models/sv2/sv2-extranonce-manager.ts. A Manager is the object's fields; Namespace is
--   resolveSv2ProcessNamespace; Search, Allocation, Guarantees, Prefixes, Release and Lanes prove it.
-- Client: src/models/StratumV2Client.ts, with what it uses of src/services/stratum-v2.service.ts. A
--   handler is a function of the message, the client's state and the service. Client itself has the
--   share handlers, Setup and Dispatch the answers to SetupConnection and the dispatch of frames,
--   Closing the closing of channels, Opening their opening and the end of a session, Updating
--   handleUpdateChannel, Identity parseUserIdentity, Orders the jobs, Pacing checkDifficulty, and
--   Inbound the way of received bytes through the handshake to the frames, over any handler of them. Hashing, Mining, Rules
--   and Pacing are the parameters: MiningJob with bitcoinjs, the validation of addresses, the
--   statistics, and the floating-point difficulties. Judgement, Shares, ExtendedShares, Jobs, Chunks,
--   Delivery and Replay prove the handlers. Fleet is about all sessions on one service: Moves,
--   Handlers and Paces prove that no handler disturbs another session, and Reach has the transition
--   system.
-- Difficulty: src/utils/difficulty.utils.ts without its floating-point part.
-- Coinbase: src/utils/coinbase-prefix.utils.ts.
-- Numbers: floating-point numbers, a parameter of the Stratum V1 files.
-- Mining: src/models/MiningJob.ts. Hex reads and writes hexadecimal texts; Construction is the
--   constructor, Submission has buildHeaderBuffer, buildCoinbaseMerkleRoot and copyAndUpdateBlock.
--   Bitcoin is the parameter for bitcoinjs. Merkle, Split, Agreement and Payouts prove it.
-- Jobs: src/services/stratum-v1-jobs.service.ts. Pipeline has the steps from a block template to a job
--   template; an object by ids is a Table. Table and Issued prove it.
-- Statistics: src/models/StratumV1ClientStatistics.ts, with the rows that
--   src/ORM/client-statistics/client-statistics.service.ts writes. Suggestion is getSuggestedDifficulty;
--   Books runs the counts on a list of shares, and Ledger proves what they add up to.
-- Session: src/models/StratumV1Client.ts. Session itself has the state with write, closeSocket and
--   destroy, Messages the messages of src/models/stratum-messages, Submission handleMiningSubmission,
--   Credit what shares change, Work the jobs and checkDifficulty, Handlers handleMessage and
--   initStratum, Lines the inbound buffer with a parameter for data.toString(). What a session does to
--   the world is a log of effects. Kept, Cuts, Duplicates, Rewriting, Waiting and Ready prove it.
-- Listeners: src/services/stratum-v1.service.ts, the ports and their backpressure; Recovery proves it.
-- Tests: a setting for the parameters, runs at concrete inputs.
--
-- Numbers are natural numbers; where a method refuses or cuts a number that is too large, so does its
-- model. Loops run on fuel: doubling gets the size that is needed, since each round adds one at least;
-- the chunk loops get the length, since each round takes a byte; the loop of feed gets two more than
-- the bytes, since each frame takes a byte of the buffer or leaves a state; the search for a prefix
-- gets the rounds that the source counts. Where fuel could run out the model says `stuck`. A cipher
-- state has 2^64 nonces, so the theorems on a connection count its messages: one for each header, one
-- for each chunk of a payload.
--
-- A handler of a session is one step. The source awaits its writes and database calls inside a
-- handler; it handles the input of one session in order, and what other sessions do in between is not
-- modelled. A write to a socket of Stratum V2 is taken to succeed; that of Stratum V1 can fail, by a
-- parameter that tells of each write. A clock does not go back, and the database does what it is asked
-- for.
--
-- Not modelled: the cryptography and the authority key, the creation of sockets, the reading side of the
-- database, the HTTP interface, the text of notifications, what an accepted Stratum V2 share does to
-- statistics and blocks, rate-limited logging, the parsing of JSON, the list of blocked user agents, and
-- the floating-point difficulties of Stratum V2.
pub mod Base
pub mod Node
pub mod Outcome
pub mod Codec
pub mod Messages
pub mod Frame
pub mod Noise
pub mod Extranonce
pub mod Difficulty
pub mod Coinbase
pub mod Client
mod Tests
pub mod Listeners
pub mod Numbers
pub mod Statistics
pub mod Mining
pub mod Jobs
pub mod Session
