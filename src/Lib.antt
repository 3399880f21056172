-- ===== src/Lib.antt =====
-- The storage provider: it keeps objects under the Merkle roots of their bytes, answers
-- challenges about them, takes uploads and deletions that are signed, and reclaims what the
-- coordinator no longer wants kept.
--
-- The parts, and the files of the repository that they model:
-- - Base: numbers with the tests of the source, integers of 64 bits, instants and durations
--   (time), and directories of the file system by name.
-- - Merkle: store/merkle.go (BuildMerkleTree, treeFromChunkHashes, TreeBuilder),
--   api/challenge_helpers.go (computeMerkleProof) and api/subchunk_helpers.go.
-- - Store: store/store.go and store/stream.go. The state is a Disk, a directory for each of
--   objects/, index/, ownership/, coverage/ and quarantine/; an operation takes it and returns it.
--   Store.Staging has staging/ and the sweeps of leftovers that cmd/staging_sweeper.go runs.
-- - Gc: gc/config.go, gc/quarantine.go and gc/sweeper.go, with the answers of coverage/client.go.
--   A sweep (RunOnce) is a function of a World: the clock, the coordinator's answers, cancelled
--   contexts and failing system calls of that sweep.
-- - Coverage: coverage/client.go (Client has QueryRoots over the outcomes of its attempts, Exchange
--   has doOnce, the waits and the two ways a client is made) and coverage/refresher.go (RunOnce),
--   which fills the cache that a sweep reads.
-- - Pause: pausectl/pausectl.go, whose state is the memory of State together with the files of
--   pause/, and in Pause.Handlers the handlers of api/pause.go.
-- - Api: tokens/tokens.go, api/upload.go, api/delete.go with its nonce cache, api/download.go,
--   api/challenge.go and api/client_challenge.go with identity/proofsig.go, api/chunked.go and
--   api/replicate.go. A handler maps a request, the state and the faults that occur to a response
--   and the next state. The state of a chunked upload is staging/, a directory of files by root.
--   Api.Cors is api/cors.go with SetCORS of api/server.go.
-- - Directory: dirfetch/refresher.go (New, RefreshOnce), which adds keys to those of the tokens.
-- - Config: config/config.go (Load), and in Config.Tags the YAML tags of its structs. Identity:
--   identity/identity.go (LoadOrCreate); the state is the file of the key, and an Attempt says what one
--   call meets.
-- - Cmd: cmd/heartbeat.go (one tick), cmd/init.go and cmd/start.go. Cmd.Options and Cmd.Capacity have
--   what Init checks first, Cmd.Document the text of the configuration (writeConfig, humanBytes),
--   Cmd.Init the five steps over the three files that are written, and Cmd.Start what Start sets up, in
--   its order, and the loops that it begins. Cmd.Onboarding runs a Start over the files of an Init.
-- - System: the state of a running provider, which cmd/start.go and api/server.go put together, and a
--   step for each request and timer; the pause state is apart, since no other part reads it. Reach
--   and Losses are about whole runs, whose steps come in any order.
-- - Tests: each result at a concrete object, disk, signal or request.
--
-- The handlers use the store, the store uses the Merkle trees, and a sweep uses the store's records
-- and the coverage answers. The upload's results are stated over the results on PutStream, and
-- these over the agreement of the streaming and the batch tree. What Start returns is made of the
-- configuration, the verifier, the pause state, the identity and the clients of the other parts.
--
-- Parameters: hashes, hexadecimal and base64 encodings, JSON, ed25519 and the parsing of times and
-- integers are fields of the records Codec, TokenCodec, DeleteCodec, RangeCodec, PauseCodec,
-- SigningCodec, StagingCodec, DirectoryCodec, ClientCodec, TextCodec, IdentityCodec, CapacityCodec (with
-- the floating-point numbers of strconv), PrintCodec (%q, %d and printed floating-point numbers),
-- InitCodec and StartCodec. The laws used of them are CodecLaws (hexadecimal text decodes to what was
-- encoded, and the encoding of joined bytes is the joined encoding), SigningLaws (texts and numbers are
-- known by their bytes), StagingLaws (names of chunk files differ, and a client's numbers are read back),
-- IdentityLaws (PEM and PKCS #8 read what they have written) and OnboardingLaws (Init and Start use the
-- same libraries: PEM reads back what it has written, and YAML puts the scalars of the text that Init
-- writes where the tags say). That a failed call leaves a file as it was, where a model does not say
-- otherwise, and that a rename replaces a file at once, is the file system's part; a chunk file whose
-- writing fails may be cut short.
--
-- Bounds and fuel: native numbers stand for lengths and instants, which the program never makes
-- negative; hours times time.Hour wraps around as in int64, metrics as in uint64, and a difference
-- of instants stays within a duration. The loops of nextPow2, TreeBuilder.Write and the reduction
-- of a level run on fuel; the length of the data is enough, which the results show, since none of
-- the functions that they equate or apply to stops early. A refresh makes at most as many rounds as
-- there are roots, and comes to each of them.
--
-- Not modelled: the HTTP server with TLS and its timeouts, and the temporary one of Init; the route
-- that prints the listing of objects; command-line flags; the system calls for the free space; what is
-- logged or printed, the lines of the heartbeat apart; the timers; and the locks: each operation is one
-- step.
pub mod Api
pub mod Base
pub mod Cmd
pub mod Config
pub mod Coverage
pub mod Directory
pub mod Gc
pub mod Identity
pub mod Merkle
pub mod Pause
pub mod Store
pub mod System
pub mod Tests
