-- ===== src/Lib.antt =====
-- rust-xhttp, a server for VLESS over XHTTP (Rust, src/).
--
-- A request of a client comes over HTTP, and src/xhttp/ says from its method, path and padding
-- what it is. Uplink packets carry a session and a sequence number;
-- src/session/mod.rs enters the session into its table, and src/session/reorder.rs puts its packets
-- in order, charging what it holds to the budget of src/buffer.rs, and gives one stream of bytes to
-- a reader. That stream starts with a VLESS
-- request header (src/vless/header.rs), which authenticates a user (src/vless/validator.rs) and
-- names a destination (src/vless/address.rs) and options (src/vless/addons.rs). UDP travels in
-- frames of src/xudp.rs. A request that is none of these is answered with the fallback
-- site (src/site.rs) by the handler of src/origin.rs. In front of all this stands TLS 1.3 (src/tls/), which the
-- program speaks itself, and the settings come from a configuration file (src/config.rs).
--
-- Buffer.antt models src/buffer.rs: a `Budget` is MemoryBudget, `try_reserve` and `release` are
-- its operation and the drop of a Reservation. Buffer/Concurrent.antt has the atomic operations
-- as steps of any number of threads.
--
-- Session/Reorder.antt models src/session/reorder.rs: an `Uplink` is State, Shared and
-- UplinkReader in one record, and `push`, `close` and `poll_read` are the operations, under the
-- lock that the source takes. The mpsc channel is a list: a sender that waits for room is
-- resumed with the same state, so the depth of the channel has no part in the result. Whether the
-- receiver is still there is part of the state, and the loss of it is a failed send. `drain`, the
-- loop behind a delivered packet, has as many rounds as there are buffered packets, each of which
-- takes one.
--
-- Vless/Address.antt, Vless/Addons.antt, Vless/Validator.antt and Vless/Header.antt model the
-- files of the same names in src/vless/. A stream is the list of the bytes to come, and its end is
-- an `io` error. Index additions of the addons decoder are written with their wrap-around at 2^64
-- (an optimised build), and a slice out of range is the outcome `panics`. The loop of the decoder
-- runs on fuel, and `unfinished` says that it has run out; the hash map is an association list, and
-- the shared snapshot of it a state that `replace` overwrites.
--
-- Vless/Vision.antt models the frames, the TLS filter and the writer of src/vless/vision.rs; the
-- random numbers are a parameter, which the writer's state indexes. Vless/Vision/Reader.antt models
-- its reader as a state machine over the list of what the polls of the inner reader give. The rounds
-- of its loop are given: a round takes a byte of the wire, moves the state on or ends the loop, so
-- that four rounds for each byte still to come and three more are enough in a poll
-- (Vless/Vision/Reader/Expecting.antt counts them). Vless/Vision/Pipe.antt joins the two: `transfer` sends
-- some writes, cuts the wire by a plan and polls the reader to the end.
--
-- Vless/Encryption/Record.antt models src/vless/encryption/record.rs; the two AEAD ciphers, which
-- are third-party, and the key derivation of src/vless/encryption/kdf.rs are an argument.
-- Vless/Encryption/Xor.antt models src/vless/encryption/xor.rs over any keystream; the loop of
-- `apply` has as many rounds as there are bytes. Vless/Encryption/Stream.antt models the reader of
-- src/vless/encryption/stream.rs, whose rounds are given, as for the Vision reader; its tests run it with
-- enough of them.
--
-- Session/Table.antt and Session/Table/Operations.antt model src/session/mod.rs. A session is the
-- number under which the table keeps it, a map an association list, and `Arc::ptr_eq` the equality of
-- the numbers. An `Action` is one call of the table, the end of a download or the end of a reaper's
-- sleep, and each is whole: the interleavings of several calls under different locks are not
-- modelled. The budget of the uplinks is one for the table. Session/Downlink.antt models
-- src/session/downlink.rs.
--
-- Xhttp/Padding.antt, with Xhttp/Padding/Responses.antt, and Xhttp/Request.antt model
-- src/xhttp/padding.rs and src/xhttp/mod.rs: a
-- request is its method, its path, its query and the text of two headers, as the `http` crate
-- gives them, and `String::from_utf8_lossy` is a parameter.
--
-- Tls/ClientHello.antt and its children Extensions, Message and RecordBuffer model
-- src/tls/client_hello.rs; a reader is the bytes that it has not taken yet. Tls/ClientHello/Offer.antt
-- says what a ClientHello is on the wire. Tls/Messages.antt and Tls/Messages/KeyShare.antt model
-- src/tls/tls13/messages.rs.
--
-- Tls/Suite.antt models the suites of src/tls/tls13/mod.rs, and Tls/Record.antt, Tls/Schedule.antt,
-- Tls/Flight.antt and Tls/Handshake.antt model record.rs, keyschedule.rs, flight.rs with keyshare.rs
-- and handshake.rs beside it. The ciphers, the hash, HMAC and HKDF, the key exchange and the random
-- bytes are third-party and an argument of the definitions; an `expect` that fails is a `none` or an
-- error of the model. Tls/Certificate.antt models the signing and the choice of a scheme in
-- src/tls/cert.rs; the signatures are an argument. Tls/Handshake/Client.antt is a client of the
-- handshake that the code is compared with; its key schedule is in Tls/Handshake/Rfc8446.antt, written
-- from RFC 8446 and apart from that of the code, while it shares the record layer and the parser of the
-- ServerHello with it.
--
-- Config.antt and its children model src/config.rs from the parsed file on: what serde gives is a
-- `Config`.
-- Site.antt models the lookup of src/site.rs. Origin.antt and its children model
-- src/origin.rs: the handler of a request, from the guards on its host, path and padding to the
-- payload of an upload, which comes in headers, in cookies or in the frames of the body. The decoder of base64 and
-- the value of the response padding are arguments; the loops over numbered headers and cookies have
-- as many rounds as there are headers (or bytes of cookies) and some more, and `unfinished` says that these have
-- run out.
--
-- Xudp.antt models src/xudp.rs.
--
-- Common.antt and its children hold bytes and words, lists, UTF-8, association lists and the
-- results of fallible code. Examples.antt and its children run the code on concrete inputs.
--
-- Not modelled: the back ends of TLS and the reading of PEM files, which call third-party code; the
-- server loop and its streams of bodies, which are the interface of hyper; the generation and the
-- files of the fallback site; the dispatcher of VLESS requests and its sockets; the key exchange of
-- src/vless/encryption/; the ACME client, the management program and the set-up of the process.
pub mod Buffer
pub mod Common
pub mod Config
pub mod Examples
pub mod Origin
pub mod Session
pub mod Site
pub mod Tls
pub mod Vless
pub mod Xhttp
pub mod Xudp
