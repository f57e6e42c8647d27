-- ===== src/Lib.antt =====
-- Verification of rcvd, a DNS forwarder that takes plaintext queries on a local listener and sends
-- them on over encrypted transports only.
--
-- A query goes through the parts in this order: the listener parses it, the policy
-- may answer it locally from the allowlist and the blocklist, the cache may have an answer, and
-- otherwise the fallback chain asks the upstreams one after the other; the response is validated,
-- stored, checked against the allowlist once more, given the EDNS record that the client may have,
-- and sent. The statistics count on the way.
--
-- Files and code:
--   Prelude, Text, Table   shared: tests and lists over the native numbers, results, Go strings as
--     lists of bytes with the functions of `strings` that the program calls, and finite maps as
--     association lists. Go's maps have no order: a theorem about them holds for every order of the
--     list that represents one.
--   Dns          the messages of github.com/miekg/dns as the program reads and writes them. The
--     library's functions are the fields of the record DnsLib, an argument of every definition that
--     calls them; EdnsLaws (OPT records) and Cache.Key.KeyLaws (names of types and classes) say what
--     of its documented behaviour the theorems use. Tests.Library has a concrete instance.
--   Statistics   internal/statistics/statistics.go: the counters, RecordResponse and the latency
--     quadruple.
--   Blocklist    internal/blocklist/blocklist.go, whole: IsBlocked, the scanner, LoadFiles,
--     ReplaceFromFiles, LoadURLs, Add, Clear, Size, Stats. The parser of IP addresses, the files and
--     the HTTP client are arguments.
--   Allowlist    internal/allowlist/allowlist.go, whole: the strict loader, Allowed, Entries, Size.
--   Policy       internal/policy/policy.go: Response, Answer, deny, Shadowed; the sentence that
--     ShadowSummary prints is left out.
--   Cache        internal/cache/cache.go, whole. The clock is an argument of each call, in
--     nanoseconds; a copy of a message is the message, since messages are values here. Cache.Ideal
--     is what it promises, a cache without a bound on its size.
--   Fallback     internal/resolver/fallback.go: Resolve, the health states and the health checks.
--     What each upstream's own resolver returns is an argument.
--   Dnssec       internal/dnssec: ValidateResponse (validator.go), the chain of trust with its key
--     cache (chain.go), the proofs that a delegation has no DS (nsec3.go) and anchors.go:
--     the comparison with the trust anchors and, in Dnssec.Anchors, the parsers of anchor files.
--     Signatures, digests, the hashed-name tests and the functions on names of the library are the
--     fields of the record Crypto, an argument, as are the parsers of XML, times and zone files.
--   Config       internal/config/config.go and pin.go: validate with its defaults and its parts, load
--     (Config.Load) and the DNS-01 token (Config.Token). The TOML decoder, the environment and the
--     file system are arguments.
--   Framing      the prefix of two bytes before a message on a stream, and the loop that serves a
--     connection (Framing.Loop): internal/server/server.go, internal/upstream/dot.go and
--     internal/resolver. A connection is the text of its bytes; Framing.Timed takes from what a client
--     sends the bytes that arrive before the deadline of a read.
--   Server       internal/server/server.go: ensureResponseEDNS, queryWithDO, applyDNSSEC,
--     upstreamFailureResponse, and the two handlers from the parsed query to the packed reply.
--     The validator is an argument, which Server.Validation fills with that of Dnssec; the upstream's
--     response is an argument. Server.Connection is handleTCPConnection as a whole.
--   UpstreamService  internal/upstream: the handlers of DoH, DoT and DoQ from the parsed query to the
--     packed reply, the zone resolver.arpa that they answer themselves, what it advertises
--     (UpstreamService.Ddr) and the names of a generated certificate.
--     UpstreamService.Connection is handleConnection of dot.go, UpstreamService.Ingress handleDNSQuery
--     of doh.go and handleStream of doq.go as a whole.
--   Transport    internal/resolver/dot.go, doq.go, doh.go and pin.go: one exchange with an upstream,
--     the retry on a fresh connection, the pool, and the verification of a pinned key. Whether a
--     dial, a stream and a write succeed and what arrives are arguments of each exchange, so a
--     theorem holds for every behaviour of the network. A call runs as one step, except in
--     Transport.Doq.Pool, which is about calls that share the QUIC connection in any order.
--   Certificates internal/rcvd_tls/automation.go: the manager of certificates. Certificates.Setup is
--     New, setupTLS, generateSelfSignedCert and the start of Start in internal/upstream/upstream.go.
--     certmagic, keys and the file system are arguments.
--   Startup      cmd/rcvd/main.go: buildUpstreamChain and loadAllowlistAtStartup.
--   Verify       internal/verify/pin.go and showpin.go: VerifyPins and ShowPin. The handshake is an
--     argument.
--
-- State and errors: a method that changes its receiver returns the new one beside its result. What
-- a lock protects is one step; a handler runs as one step, so interleavings of handlers are the
-- sequences of such steps; a Get of the cache is two where other calls come between its
-- locks. Go's (value, error) is an Option, a Result, or a pair where the code uses both.
--
-- Numbers are naturals. The counters are int64 in the code and would wrap after 2^63 increments.
-- TTLs are uint32 values and the settings are small, so no arithmetic of the cache reaches 2^63
-- seconds or nanoseconds. Settings that may be negative are integers (Prelude.Int).
--
-- Loops are recursions on lists, except three. The walk of Dnssec.Chain counts the levels that
-- maxChainDepth leaves, so running out of them is the code's own error. The walk over enclosing
-- names in Dnssec.Denial has fuel for one turn more than the name has bytes, which is enough where
-- a name's parent is shorter, as Dnssec.NoDs shows. The loop over a connection has one turn for each
-- byte that arrives, since a message takes at least three.
--
-- Not modelled: the rest of the command and its sockets (cmd/rcvd), the dialers and the deadlines of
-- the encrypted transports, the sockets of the listeners (internal/upstream), the bridge of the
-- certificate log (internal/rcvd_tls), the self-checks that only print what they saw
-- (internal/verify/upstream.go and self.go), the logger, and what the statistics print.
pub mod Prelude
pub mod Text
pub mod Table
pub mod Dns
pub mod Statistics
pub mod Blocklist
pub mod Allowlist
pub mod Policy
pub mod Cache
pub mod Fallback
pub mod Dnssec
pub mod Config
pub mod Framing
pub mod Server
pub mod UpstreamService
pub mod Transport
pub mod Certificates
pub mod Startup
pub mod Verify
pub mod Tests
