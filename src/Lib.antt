-- ===== src/Lib.antt =====
-- NobleChat: models of the program's parts and the theorems that make them correct.
--
-- NobleChat sends end-to-end encrypted messages through a mix network. A client seals a content to a
-- recipient (packages/protocol), wraps it into a Sphinx packet (packages/sphinx) and hands it to the
-- first mix node (apps/node). Every node drops replays, takes one layer off and passes the packet on;
-- the last one delivers to the gateway (apps/server), which keeps it in the recipient's mailbox until a
-- device fetches it.
--
-- Files and what they model:
--   Prelude, Prelude/*       tests, lists, JavaScript maps and sets, strings as lists of UTF-16 code
--                            units, byte arrays as lists of numbers, exceptions as a result type
--   Wire, Wire/*             packages/protocol/src/wire.js: pack, unpack
--   Sphinx/*                 packages/sphinx/src/sphinx.js: Cipher has the lioness block cipher, Scalar the
--                            shared secrets, Header createHeader, Packet createPacket and processPacket;
--                            Layers, Peeling, Exit, Path, Travel and Delivery are the proof that a packet
--                            crosses its path
--   Envelope/*               packages/protocol/src/protocol.js and packages/crypto/src: Hybrid has
--                            encapsulate, decapsulate, seal, open, sign and verify, Seal has sealEnvelope
--                            and openEnvelope
--   Replay, Replay/*         packages/net/src/replay.js: makeReplayGuard
--   Node, Node/*             apps/node/node.js: handlePacket
--   Net/*                    packages/net/src: Serialize is serialize.js, Directory directory.js with
--                            buildTestnet and pickPath, and Directory/Provider where a path ends; Client
--                            client.js, and Client/Delivery the way of a message from its sender to its
--                            recipient
--   Router, Router/*         packages/net/src/router.js: the class Mixnet over any mailbox store
--   Helpers, Helpers/*       packages/crypto/src/util.js: randomIndex, hexadecimal, timingSafeEqual,
--                            keysFingerprint
--   Server/*                 apps/server/util.js and log.js: Lockout is makeLockout, Limiter rateLimiter,
--                            Connections tryAcquireConn and releaseConn, Address clientIp, Password the
--                            scrypt hashes, Log the event ring
--   Store/*                  apps/server/store.js: Tables has the schema, Accounts, Devices, Sessions,
--                            Mailbox, Files and Moderation the methods, Run all of them as steps; the
--                            others are the proofs
--   Gateway/*                apps/server/server.js: State is the state of main with its limiters and
--                            guards, Auth the registration and sign-in, Account devices, deletion,
--                            bundles, presence and blobs, Files uploads and downloads, Transport the
--                            switch between the networks, Admin the panel's routes, Sockets the
--                            WebSocket gateway; Unauthorized has the dispatch of the routes that need a
--                            session. Fields and Body are the checks of apps/server/util.js, Relay
--                            apps/server/turn.js, Sidecar apps/server/nym.js
--   Web/*                    apps/web/src: Pins is mergeSyncedPin of pin-utils.js, Messages has
--                            message-utils.js, group-utils.js and card-utils.js, Text text-utils.js and
--                            fmtUptime of admin-utils.js; of main.js, Trust has the pins and Inbox what an
--                            envelope does to the state
--   Tests/*                  toy parameters, runs, and instances of the theorems
--
-- How code becomes definitions. Mutable state is an argument and a result; the clock and random bytes
-- are arguments; a thrown error is a value of Result or Option. A number of the source that is never
-- negative or fractional is a natural number; Limiter counts exact fractions of a token, where the
-- source has floating-point numbers. A byte is a number, and the theorems that need it below 256 say
-- so. The recursions are on lists or on a count. Two counts stand for a loop that the source bounds in
-- another way: inject of Router goes through at most as many hops as it is given, and a packet has at most
-- five; random_index of Helpers takes the words that are drawn as a list, and has no result if all of them
-- are rejected.
--
-- Parameters. Cryptographic libraries, Node's scrypt and codecs, and the hash of a session token are
-- parameters, with their documented laws as fields of the records Primitives, Schemes, Node and Base64.
-- Secrecy and unforgeability are no part of the model. The tables of PostgreSQL are lists of rows, and a
-- query is the list operation that its SQL text says; a method of the store is one step, so statements
-- of two requests do not interleave. The steps of Store.Run are all its methods that change a table or
-- the attachment directory; the bound on bytes leaves out saveFileMeta, which does not look at the
-- quota. chacha20 is a parameter that has its laws on keys of 32 bytes and nonces of 12 only: on others
-- the library throws, so lioness_encrypt and lioness_decrypt stand for the source on blocks of 32 bytes
-- or more.
--
-- A handler of the gateway takes the state to an answer and the next state, in one step: `await` does
-- not let another request in between. The switch between the networks is the exception: Transport has
-- its two parts, before and after the `await`, and Transport/Fallback runs them with other requests and
-- the events of the sidecar's link in between, in any order. An upload has as arguments whether its file
-- opens, where its stream breaks off and whether an unlink succeeds; elsewhere an unlink of the store
-- succeeds. What goes out to sockets and nodes is a list in the state. A handler's guards stand in the
-- order of the source, and a `try` around it is the case where a body does not parse. `readyState` of a
-- socket is a function from sockets to Booleans. The delays between hops are left out.
--
-- Not modelled: of apps/server/server.js the read-only routes /api/net and /api/changelog, what the
-- admin panel's status, users and mixnodes answer, /internal/hop, start-up, shutdown and static files;
-- makeBrowserNet of packages/net/src/serialize.js; the floating-point delays; of the web client all but
-- its helpers and the receiving side of apps/web/src/main.js (the DOM, calls, storage, sending and
-- admin.js); the desktop shell (clients/desktop) and the scripts.
mod Prelude
mod Tests
pub mod Wire
pub mod Sphinx
pub mod Replay
pub mod Server
pub mod Node
pub mod Store
pub mod Envelope
pub mod Web
pub mod Helpers
pub mod Gateway
pub mod Router
pub mod Net
