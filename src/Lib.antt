-- ===== src/Lib.antt =====
-- A verification library for iotacaddy, a Caddy web server with a plugin that does the proof of work
-- of IOTA transactions. It models the path that a Caddyfile takes from bytes to server blocks, and
-- parts that decide what happens to a request once the server runs.
--
-- The parts, and how they meet:
-- - Lexer: `lexer` of caddyfile/lexer.go, and `allTokens` of caddyfile/parse.go. `Lexer.Defs.scan` is the
--   loop of `next`, one rune a round; `round` is the body of that loop.
-- - Dispenser: `Dispenser` of caddyfile/dispenser.go, over the tokens of the lexer. Every directive
--   reads its arguments through it, among them the set-up of iota/plugin.go.
-- - EnvVars: `replaceEnvVars` and `replaceEnvReferences` of caddyfile/parse.go.
-- - Parser: the rest of caddyfile/parse.go. The parser embeds a dispenser, and replaces the tokens of
--   an import by those of a snippet or of files, which the lexer reads.
-- - VHost: `vhostTrie` of caddyhttp/httpserver/vhosttrie.go, which finds the site of a request.
-- - Address: the addresses of sites of caddyhttp/httpserver/plugin.go, which the keys of server blocks
--   are read as, and the test of `InspectServerBlocks` that they differ.
-- - Json: caddyfile/json.go, from the server blocks of the parser to lines and blocks, and from these
--   to text.
-- - Policy: caddyhttp/proxy/policy.go, `Down`, `Full` and `Available` of caddyhttp/proxy/proxy.go, and
--   `staticUpstream.Select` of caddyhttp/proxy/upstream.go, which find the upstream host.
-- - Proxy: `ServeHTTP` and `match` of caddyhttp/proxy/proxy.go, over the interface `Upstream`, which
--   the upstreams of Policy implement in the code, and `Matches` of caddyhttp/httpserver/path.go. The
--   counters of the hosts are a store, the goroutines that take failures back a list of timers.
-- - Upstream: `NewStaticUpstreams` of caddyhttp/proxy/upstream.go with `parseUpstream` and `parseBlock`,
--   which make the hosts of Policy from a dispenser, `AllowedPath`, and the health checks.
-- - Mitm: caddyhttp/httpserver/mitm.go, in front of all handlers. `Wire` reads bytes, `Defs` the hello
--   of a client, also read after read, `Looks` and `Handler` the rest.
-- - Conditions: caddyhttp/httpserver/condition.go, the `if` blocks of directives, which a dispenser
--   reads and a request is tested against.
-- - Fcgi: caddyhttp/fastcgi/fcgiclient.go up to `Do`, the records of a request and the reader of the
--   answer. The connection is the list of bytes that go out, and that of the bytes that come in.
-- - Replacer: `Replace`, `getSubstitution` and `limitWriter` of caddyhttp/httpserver/replacer.go, which
--   the directives give texts with placeholders to.
-- - Telemetry: the buffer of telemetry/collection.go, which the parser also writes to, and the updates
--   of telemetry/telemetry.go. `Sending` is the loop of `emit` over the replies of the server, and
--   `Emission` the rest of `emit`, `Init`, `StartEmitting` and `StopEmitting`, with the relation
--   `Step` for the order of the steps, which calls, timers and updates in progress take.
-- - Iota: iota/plugin.go, the interceptor of `attachToTangle` calls and its set-up.
-- - Net: `net.SplitHostPort` of the standard library, for Policy, VHost and Address.
-- - Prelude: the names, tests and lemmas that the others share.
-- In each part `Defs` holds the definitions, named as the functions of the code, and `Tests` runs
-- them; the other modules are named for what they are about.
--
-- State: a method takes the state and returns the new one with its result. A Go string is the list
-- of its code points, a map an association list without repeated keys, a pointer that is shared by
-- nothing a value. `Dispenser.loaded` is the source's `cursor + 1`, so that the cursor -1 is 0. A
-- panic is a result of its own (`crash`, `crashed`, `panicked`), and so is the end of the fuel
-- (`spent`, `unfinished`), where the model has fuel.
--
-- Fuel: `all_tokens` and `remaining_args` compute their own fuel, from the number of runes and of
-- tokens that are left, one of which each round takes; Fcgi and Mitm compute theirs from the bytes,
-- and `Replacer.Template.replace_all` and `Json.Text.lines_of` have a round for every rune or token
-- and one more. `setup` has a round for every token. `Proxy.Defs.retry_from` needs a round for each
-- interval in the time for trying and two more. The loops of the parser, of `SetupIfMatcher` and of
-- the proxy directive take fuel as an argument, since an import can bring itself back, a variable
-- its own reference, and a block can lack its closing brace, and then the code does not end either.
--
-- Machine integers: the counter of RoundRobin, the index of hashing and the length of a pool are
-- 32-bit words with their wrap-around; `LeastConn` starts from the greatest 64-bit integer;
-- `max_fails` is cut to 32 bits, and the seconds of a Retry-After are multiplied in 64 bits. Line
-- numbers, other durations, the counts of telemetry and connections are unbounded, the last not
-- below 0.
--
-- Parameters: the operating system (`Parser.World`), the random draws (`Policy.Defs.Draws`), the
-- backends of the proxy and the time that they take (`Proxy.Defs.Outside`), the cleaning of a path,
-- lower case, floating-point numbers (`Mitm.Handler.Floats`), the parsing of URLs and IP addresses
-- (`Address.Defs.Library`), that of durations, the certificates and the policies that are
-- registered (`Upstream.Defs.Library`), the network of the health checks
-- (`Upstream.Health.Network`), the JSON codec, the transaction library, the proof of work and the
-- readings of the clock (`Iota.Defs.Library`), regular expressions and the replacer of a request
-- (`Conditions.Defs`), the name of the host, the formatted time and the escapes of URLs
-- (`Replacer.Request.Outside`).
--
-- Not modelled: starting, restarting and stopping servers (caddy.go, controller.go, plugins.go,
-- sigtrap.go, upgrade.go, commands.go, caddy/caddymain); certificates (caddytls); the HTTP server
-- and its other directives (caddyhttp), and of the proxy and the FastCGI client what runs on
-- connections; JSON text; logs. A call that collects telemetry runs under its mutex, so it is one
-- step; requests that run side by side in the proxy are not interleaved, and its timers run as soon
-- as they are due.
pub mod Prelude
pub mod Net
pub mod Lexer
pub mod Dispenser
pub mod Json
pub mod EnvVars
pub mod Parser
pub mod Policy
pub mod Proxy
pub mod Upstream
pub mod Conditions
pub mod Fcgi
pub mod Mitm
pub mod VHost
pub mod Address
pub mod Replacer
pub mod Telemetry
pub mod Iota
