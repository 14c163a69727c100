-- ===== src/Lib.antt =====
-- A verification library for the Forward Networks Go SDK.
--
-- The SDK is a client of a REST API. Each typed call builds a request, which `Client.send`
-- (retry.go) transmits and, by the client's policy, repeats; long-running work on the server is
-- followed by operations (operations.go), which poll with such requests and publish each state.
--
-- * Prelude, Text: the native numbers, int64 as the integers below Prelude.Int with the
--   wrap-around written out, and strings as lists of code points with what the SDK uses of
--   `strings`, `unicode` and `strconv`, and Text.Maps with the maps that have them as keys. Bytes
--   that are no UTF-8 are not modelled.
-- * Retry (retry.go): Policy holds RetryPolicy, isPermanent, notConnected, idempotent and
--   retryable; After is retryAfter, Backoff retryWait, Cooldown the type cooldown with set and
--   wait, and Send the loop of Client.send. An *http.Request and an *http.Response are records of
--   what the code reads of them. What one round of the loop observes (the clock, the context, the
--   transport, the stores of other requests on the shared cooldown) is a record, and the
--   environment gives the record of every round. Draining the body of a response before the next
--   round is left out.
-- * Operations (operations.go): Types holds the phases, handles, states and options, Discover
--   discoverCollectionSnapshot and find, Handles the starting and resuming of operations, and
--   Collection, Known and Wait the three loops of CollectionOperation.Wait, and Uploads the one of
--   SnapshotOperation.Wait, again with a record of observations per round.
-- * Poller (poller.go): Refresh and Wait of Poller[T], with the same form of rounds, which have what
--   others store in the poller in front of a poll and behind it.
-- * Nqe (nqe_paged.go): Paged holds RunAll and runAllOnce, with the server's reply to every
--   request of every pass as a parameter.
-- * Errors (errors.go): Types holds ErrorKind, the sentinels, ErrorResponse and its method Is;
--   Words and Messages the tests on texts and the regular expressions; Classify
--   classifyErrorResponse, one Boolean test or function per rule, and isGone, on the Facts;
--   Response newErrorResponse and what reads a classified error.
-- * Perfpayload (perfpayload): Watermark (perfpayload/watermark.go) holds Watermarks with Filter,
--   as the entries sent and the refusals, and Advance. Encode (perfpayload/encode.go) holds
--   Validate, the writers of the wire format byte by byte and Encode; a float32 is its bit pattern
--   and a map of interfaces the list of its entries in the order of an iteration. Encode.Wire and
--   Encode.Decode are no code of the SDK: they say how a receiver reads the wire format by its
--   schema.
-- * Client (client.go, auth.go, hooks.go, browser_csrf.go): Auth holds the modes and credentials,
--   Url what net/url does, ResolveReference and PathUnescape written out, Paths resolveScoped and
--   normalizeBaseURL, Http configureHTTPClient and secureRedirects, Config NewClient, ForNetwork
--   and resolveNetworkID, Request the makers of requests, Csrf and Do the call `do` with its
--   events and the token of a browser session. What `send` returns to `do` is a function of the
--   request.
-- * Capabilities (capabilities.go): the capabilityRegistry with newCapabilityRegistry, Support,
--   requireCapability, observeCapability and recordVersion. Profile and All, which copy and sort
--   what the registry holds, are left out.
-- * Access (access.go): the role ladder, AccessTable.Operation and Access.Can, whose parts between
--   the returns are stages. Load is LoadAccessTableJSON behind the decoding of the file. Reading a
--   table from a checkout of sources, writing one, and the wording of reasons are left out.
-- * Routecheck (cmd/routecheck/match.go): Segments holds segments and matches, Allow parseAllow
--   and covers, Check the function check with its report. Printing the report is left out.
--
-- The loop of `send` runs on as much fuel as the policy has attempts, since each round but the last
-- goes on only below that number. A pass of `RunAll` has as many rounds as it may read rows, and
-- one more, since every round that goes on brings a row. A varint runs on ten digits of 7 bits,
-- enough for 64. The loops of a wait have no bound of their own: they run on any fuel, and `none`
-- or `out_of_fuel` says that it ran out. Rounds is the common form of these loops.
--
-- time.Parse, http.ParseTime, url.Parse, json.Unmarshal and the requests to the server are
-- parameters or observations. An instant is a number of nanoseconds, since 1970 in Retry and since
-- Go's zero time in Operations, so that the zero time is 0. A jitter and the random draw are
-- multiples of 2^-53 and their product with a wait is exact. Guards against nil receivers, the
-- mutexes that make an operation's methods exclude each other, the elapsed time of an update and
-- the wording of errors are not modelled; nor are the typed bindings of endpoints, which only build
-- paths and decode JSON, the other command-line tools and generated tables.
pub mod Prelude
pub mod Client
pub mod Capabilities
pub mod Access
pub mod Text
pub mod Rounds
pub mod Retry
pub mod Operations
pub mod Poller
pub mod Routecheck
pub mod Nqe
pub mod Errors
pub mod Perfpayload
