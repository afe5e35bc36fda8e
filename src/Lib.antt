-- ===== src/Lib.antt =====
-- opencode-multi-agents: a gateway that sends chat requests through a pool of VPN proxies, and that
-- issues API keys for proofs of work. This library models its core, with theorems on what it does.
--
-- The parts and how they interact. A request for a completion comes in at the gateway
-- (internal/handler/handler.go), which asks the proxy pool (internal/proxy/pool.go) for a proxy, sends
-- the request upstream through it, and reports back what happened: a rate limit bans the proxy's egress
-- IP, a failure takes the proxy out of dispatch, and success releases it. Background goroutines keep the
-- pool at its size, check the proxies' health, and bring back those whose cooldown has run out. Keys for
-- the gateway are issued by the proof-of-work service (internal/handler/pow.go), on top of the
-- challenges (internal/pow/pow.go), the adaptive difficulty (internal/pow/difficulty.go) and the tables
-- (internal/pow/store.go). The containers of the pool are made for VPN accounts
-- (internal/proxy/composite_manager.go), whose sessions and certificates come from ProtonVPN
-- (internal/protonvpn), and the upstream clients (internal/upstream) dial through the proxies.
--
-- Which file models which part:
--   Proxy/Types, Pool    types.go and the struct PoolManager; the map `pool` is an association list
--                        whose order stands for one order of iteration (Proxy/Index: keyed by ID)
--   Proxy/Bans           ipBannedLocked, banIPLocked, bannedRegions
--   Proxy/Acquire        GetProxy and ReleaseProxy
--   Proxy/Capacity       ensurePoolCapacity, spawnDone, pruneDeadProxies, RemoveProxy, SetPoolSize,
--                        MarkRateLimited, MarkUnhealthy
--   Proxy/Health         checkAllProxies, restoreCooldownProxies, Stats
--   Proxy/Refresh        AddExternalProxy, RefreshPool, ForceRotate
--   Proxy/Create         rotateUntilUniqueIP, createProxy, over the interface Manager
--                        (Proxy/Manager)
--   Pow/Bits, Counter    LeadingZeroBits, Satisfies, CounterToBytes, CounterFromBytes
--   Pow/Challenge        Challenge, Preimage, Digest, Verify
--   Pow/Difficulty       NewDifficulty, Current, RecordSolve, Escalate, Escalated
--   Pow/Store            the tables and the SQL statements
--   Pow/Service          PoWService, LookupKey, the plans, BindingHash and KeyHash
--   Pow/Issue            handleChallenge, with its rate limits
--   Pow/Redeem           handleRedeem; Pow/Redeem/Steps: its two steps, which others run between
--   Pow/Limits           checkKeyLimits
--   Gateway/Auth         lookupKey, gatewayAuthMiddleware, resolveAuth, authForEntry
--   Gateway/Chat         the retry loop of handleChatCompletions
--   Gateway/Stream       handleStreamResponse, over the lines of the upstream's stream
--   Gateway/Tools        internal/handler/tools.go: tool calls, their fragments and their results
--   Gateway/Requests     validateChatRequest and the first part of handleChatCompletions, the error
--                        types, calculateRetryDelay
--   Gateway/Rounds       doRound and streamWithToolRounds; Gateway/Completions: completeWithToolRounds
--   Proxy/External       internal/proxy/socks5_manager.go: ExternalProxyManager
--   Proxy/Composite      internal/proxy/composite_manager.go
--   Proxy/Socks5         parseSOCKS5Addr and the SOCKS5 handshake of socks5_manager.go, in bytes
--   Vpn/Servers          internal/protonvpn/client.go: SelectServer
--   Vpn/Cookies          ParseCookieString
--   Vpn/Sessions         EnsureSession, ImportBrowserCookies, Login, GetCertificate, with the tables of
--                        internal/protonvpn/store.go
--   Upstream/Client      internal/upstream/client.go
--   Upstream/Cli         internal/upstream/opencode_cli.go
--   Upstream/Server      internal/upstream/opencode_client.go, with its texts in Upstream/Messages
--   Metrics/Pricing      internal/metrics/pricing.go
--   Metrics/Store        internal/metrics/metrics.go: what is recorded and counted
--   Config/Validate      internal/config/config.go: Validate and the lists of accounts and proxies
--   Config/Table, Store  internal/config/store.go: the tables, and SeedFromConfig
--   Gateway/Manage       internal/handler/manage.go: accounts, external proxies, the pool's refresh
--   Gateway/Settings     handleUpdateSettings
--   Proxy/Docker         internal/proxy/docker.go: CreateEx, its waiting and its cleaning up, with the
--                        configuration of WireGuard in Proxy/Wireguard
--   Pow/Solver           cmd/powsolver/main.go: the workers and their interleavings
-- The modules below a part hold the theorems on it; the modules whose names end in
-- Examples apply them at concrete states. A function has the name of its Go function in snake case.
--
-- State and time. A method that works under a lock is a function from the state to the state; readings
-- of the clock are arguments, in nanoseconds (Unix seconds in the tables). An `error` is `none` or a
-- response. What other goroutines do between two sections is an argument where a method waits
-- (Proxy.Acquire), or a list of events (Pow.Redeem.Steps, Pow.Difficulty.Bounds). The workers of the
-- solver take atomic steps in any order, a list of their indices (Pow.Solver). Where a method takes
-- its lock several times, the model runs it with no other goroutine in between, which its comment says.
--
-- Bounds and fuel. Durations wrap at 2^63 where the source multiplies (Proxy.Capacity.longer_ban). The
-- loops are structural, over lists or over the attempts or rounds that are left. format_uint is on
-- fuel: 20 digits, enough below 2^64.
--
-- Parameters. SHA-256, BLAKE3 and Base64 are functions of which nothing is assumed; so are Go's
-- floating-point operations (the record Float). What creates and removes containers is the record
-- Manager, with the number of creations counted (Counted). What the pool and the upstream answer to the
-- chat handler, attempt by attempt, is the record Gateway.Chat.Surroundings: the pool is shared with
-- other goroutines. What the rounds of tool calls meet outside is Gateway.Rounds.Outside, the VPN
-- accounts are Proxy.Composite.Accounts, and ProtonVPN's answers Vpn.Sessions.Proton. The scores of
-- servers are ordered as natural numbers are (Vpn.Servers.Scores), as numbers other than NaN are. The
-- rates of prices are Metrics.Pricing.Rates. The Docker engine is Proxy.Docker.Engine, with what it
-- documents of its containers in Proxy.Docker.Tracked.Tracked.
--
-- Not modelled: the Docker engine, HTTP, JSON and SQLite themselves, the SRP login and the key
-- derivation of ProtonVPN, the loading of the configuration, web search, logging, and the web pages.
mod Prelude
pub mod Proxy
pub mod Pow
pub mod Gateway
pub mod Vpn
pub mod Upstream
pub mod Metrics
pub mod Config
