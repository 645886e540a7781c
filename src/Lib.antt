-- ===== src/Lib.antt =====
-- dnscore: a DNS client library in Go, modelled and verified.
--
-- The program builds DNS queries (query.go), sends them to a server over UDP, TCP, TLS or HTTPS
-- (transport.go with doudp.go, dotcp.go, dotls.go and dohttps.go), validates and decodes the
-- responses (response.go, answer.go), and looks names up by asking the servers of a configuration in
-- turn (resolver.go, lookup.go, resolverconfig.go). The resolver calls a transport by its method
-- Query; a transport calls the one round trip that the protocol of the address names.
--
-- Prelude has the names, tests and list lemmas that the other files share. Errors and Go have the
-- error values of the package and Go's results: a value, an error or a panic. Dns has the messages of
-- github.com/miekg/dns; the functions of that library, of golang.org/x/net/idna and of package net
-- are the fields of the record Library, a parameter, with what they document in IsLawful. Runtime has
-- what is asked of the world: connections, clocks, random IDs, HTTP and the logger. A record Env, also
-- a parameter, gives the world's answers, and may give another answer after every event; an action of
-- type Io takes the history of events, the latest first, and gives a result and the history after it.
--
--   ServerAddr       serveraddr.go: Protocol, ServerAddr, NewServerAddr
--   Query            query.go: QueryOptionEDNS0, QueryOptionID, NewQueryWithServerAddr, NewQuery
--   Response         response.go: ValidateResponse, equalASCIIName, RCodeToError, ValidAnswers
--   Answer           answer.go: DecodeLookupA, DecodeLookupAAAA
--   ResolverConfig   resolverconfig.go: AddServer, SetAttempts, the options, servers; Mutex
--                    has the steps of goroutines that share a configuration
--   Transport        transport.go and slog.go: the struct Transport with its hooks, the log records
--   Frame            dotcp.go: newRawMsgFrame and the length that is read from a frame
--   Stream           dotcp.go and dotls.go: queryStream, queryTCP, dialTLSContext, queryTLS
--   Udp              doudp.go: sendQueryUDP, recvResponseUDP, queryUDP, queryUDPWithDuplicates
--   Https            dohttps.go: queryHTTPS and its helpers
--   Dispatch         transport.go: Query and QueryWithDuplicates
--   Resolver         resolver.go: the struct Resolver with config and transport
--   Lookup           lookup.go: exchange and lookup
--   Host             resolver.go: LookupHost, LookupA, LookupAAAA, resolverDedupAndSort
--   TestServer       dnscoretest: the server that the tests of the program talk to:
--                    a Start method is the assertion of its caller and then the goroutine
--   Session          the client against that server: a round trip over UDP, a stream and HTTPS, and
--                    LookupHost over UDP
--   Commands         internal/cmd/transport and internal/cmd/lookup: their functions main
--   Samples          a small library and a small world, for the tests
--
-- Numbers are natural numbers; where the source wraps (the padding in uint16, the index of a server in
-- uint32, the bytes of a frame) the model takes the remainder. A timeout and the number of attempts
-- are signed. A name is a list of bytes, since the program compares names byte by byte.
--
-- The loops over lists are recursion on the list, and the rounds of a lookup are recursion on the
-- attempts that are left. Only two loops have fuel, since they go on as long as datagrams arrive: the
-- one that collects duplicate responses, which ends within `k + 1` rounds if at most `k` datagrams
-- arrive, and the one of the test server.
--
-- A channel is the part of the history that is sent on it. The goroutines that only wait for a context
-- and then close a connection are a deferred closing, which is where the cancelling of the derived
-- context puts them; that a context ends earlier shows in the answers of the world. A closing before
-- the exchange is over, which such an end can bring about, shows as reads and writes that fail, not as
-- an earlier closing in the history. The two lookups of LookupHost run one after the other, in either
-- order; their exchanges do not interleave. A transport is taken not to modify the query that it gets.
-- An error of another package is its text.
--
-- The structured log is the part of the history that the logger gets: the records of slog.go, and, for
-- DNS over HTTPS, the two of package httpslog between them, which are constructors with what they are
-- given.
--
-- A session joins two runs: each end of a connection reads what the other has written, a datagram
-- that fits the buffer arrives, and package net/http makes a request into a run of the handler and
-- what it writes into a response. That a message survives packing and parsing is a hypothesis there,
-- as is what SetReply documents.
--
-- A configuration is read and changed by any number of goroutines: a step of one is one access to the
-- mutex or to a field. sync.RWMutex is taken to admit one writer alone, or readers together; which
-- of those that wait comes in first is left open.
--
-- Not modelled: the interleaving of the two lookups of LookupHost; the command internal/cmd/mkcert, which is one call of another package; the parsing of
-- flags; and the text of errors apart from what is wrapped.
mod Prelude
pub mod Errors
pub mod Go
pub mod Dns
pub mod Response
pub mod Answer
pub mod ServerAddr
pub mod Runtime
pub mod Query
pub mod ResolverConfig
pub mod Transport
pub mod Frame
pub mod Stream
pub mod Udp
pub mod Https
pub mod Dispatch
pub mod Resolver
pub mod Lookup
pub mod Host
pub mod TestServer
pub mod Session
pub mod Commands
pub mod Samples
