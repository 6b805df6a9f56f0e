-- ===== src/Lib.antt =====
-- Verification of gforward, a proxy that forwards TCP traffic through a client and a server.
--
-- A user's connection reaches the client (client/). A parser of destinations
-- (client/destination/) finds the target in the first bytes; the client frames the user's bytes
-- as packets with that target (protocol/) and writes them to a connection of its own to the
-- server. The server (server/) cuts the stream into packets (network/message/), gives each client
-- connection to a worker, dials the target, and writes the payloads to it; what the target sends
-- goes back the same way. Both sides keep a session table that maps the connections of the two
-- sides to each other and queues data while a dial runs. The dialer (network/dialer/) opens
-- connections in the background for both, and cuts what they receive into packets. The commands
-- (cmd/) check their options and start one side, with a DNS server (client/dns.go) in two modes.
--
-- Files and sources:
--   Protocol            protocol/common.go, forward.go, plain.go: the packets. `Result` and the
--                       record `Parsed` stand for Go's results with an error. Protocol/HostPort and
--                       Protocol/Decimal hold what the code uses of net and strconv.
--   Message             network/message/message.go: `ParseAvailable` is `parse_available`.
--   Server/Session      server/session.go: the session table, one function for each method.
--   Server/Handler      server/handler.go: the handlers of a worker; Server/Handler/Workers has the
--                       loops of `start`.
--   Server/Dispatcher   server/dispatcher.go: workers and their channels.
--   Client/Session      client/session.go: the session table of the client.
--   Client/Forwarder    client/forwarder.go: `OnTraffic`.
--   Client/Handlers     client/forwarder.go: `OnClose` and the dialer's events.
--   Destination/Parser  client/destination/parser.go: the parser as an interface, and gnet's buffer.
--   Destination/Text, Destination/Chunked, Destination/HttpProxy
--                       client/destination/http_proxy.go: the chunked body, the request state, Parse.
--   Destination/Https   client/destination/https.go: the server name of a TLS ClientHello.
--   Destination/Socks5  client/destination/socks5.go: the handshake.
--   Destination/Shadowsocks
--                       client/destination/shadowsocks.go: keys, nonces and `decrypt`. Below it
--                       Encrypter is `encrypt`, Address the address header, and Conns the
--                       parser's connections and methods.
--   Destination/Http    client/destination/http.go: `Parse`.
--   Destination/Modes   the client over each of these parsers.
--   Destination/Hosts   client/destination/https.go: `extractDestWithPort`.
--   Dialer              network/dialer/dialer.go: `Dial`, and `AsyncDial` as the steps of its
--                       goroutines. Dialer/Handling is network/dialer/handler.go, and
--                       Dialer/Relays joins it to the worker's handler.
--   Client/Dns          client/dns.go: `newDNSHandler` and `ServeDNS`.
--   Commands            cmd/client.go, cmd/server.go: the options, up to what is started.
--                       Commands/Addresses holds what the code uses of net/netip and strconv.
--   Prelude             what all files share: tests on numbers, lists, maps, results.
-- The other files below these hold proofs, and the files named Runs concrete runs and instances.
--
-- State and concurrency: a connection is a number, and so is a pointer to a session, which a heap
-- resolves. Each method of a session table holds the table's mutex, so it is one step; a handler
-- is a function that returns the new state and the outside calls it makes, in order. `sendMu`
-- makes a handler's writes one block, as they are here. Schedules are sequences of such steps.
--
-- Numbers are natural numbers; a 16-bit field is written with `% 65536` and a 64-bit counter with
-- `% 2 ^ 64`. Loops that Go writes with `for` run on fuel. `ParseAvailable` and the chunked
-- parser have fuel for every buffer: a round consumes a byte, or leaves the data phase, which it
-- enters by a byte. The loop over TLS extensions takes four bytes a round and has a round for
-- each byte. The SOCKS5 loop has two rounds, one for each phase of the handshake; the answer
-- without fuel is a parameter. `OnTraffic` has
-- a round more than there are bytes; this is enough if the parser puts nothing into the buffer
-- and takes bytes out of it whenever it hands over a decoded payload. `decrypt` has a round more
-- than there are bytes, since a chunk has three bytes at least; `encrypt` has one for each byte of
-- the plaintext, and the derivation of a key one for each byte of the key.
--
-- Parameters: gnet's `Peek` and `Discard` (`IsGnet` states what its documentation says of them),
-- `conn.Write`, the SOCKS5 library (`IsWelcome`: it reads what was sent), and `http.ReadRequest`
-- (`IsReader`: it reads some bytes and no more than there are). The cryptography is the record
-- `Crypto`: MD5, HKDF, the two AEADs (`IsAead`: what is sealed is opened under the same nonce, and
-- the overhead is constant) and `rand.Read` (`IsCrypto`: a salt has the length asked for). The
-- network's answers to a dial, and the local address that the system chooses for a DNS client, are
-- parameters too. To the client and the server the dialer appears by the events that it delivers;
-- `IsAnswered` and `IsOpened` say what it does for the server's current dials, and `IsDelivered` what
-- it does for the client's: one new connection for a dial, and on the server a success behind it only.
-- Dialer/Relays joins its handler to the worker's.
--
-- Not modelled: logging, the registration of the command-line flags, the start of gnet's engines and
-- of the DNS socket, the timeout of a dial, the text of errors, and that a full channel blocks where
-- the server hands a message to a worker.
pub mod Prelude
pub mod Protocol
pub mod Message
pub mod Server
pub mod Destination
pub mod Client
pub mod Dialer
pub mod Commands
