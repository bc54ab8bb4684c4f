-- ===== src/Lib.antt =====
-- ZTNA Lab appliance: a DNS server with local records, an HTTP and an SSH test server, a shared log,
-- a latency runner, the Admin API that starts, stops and configures them, and two command lines.
--
-- Common: Go strings as lists of bytes, maps as association lists, signed integers and their parsing.
-- Net: `net.ParseIP` of the Go standard library, as the records use it.
-- Service: the contract of a server that is started and stopped, shared by dns, httpd and sshd.
-- Dns.Records: dns/records.go. `Store` is `recordStore`; `World` adds the files and the log lines. Each
--   exported function is the definition with its name in snake case, one step under the mutex.
-- Dns.Server: dns/server.go. `handle` dispatches to `answer_a`, `answer_cname` and `forward`; the
--   miekg/dns package and the upstream server are parameters. Dns.Server.Lifecycle: Start and Stop.
-- Logger: logger/logger.go. State holds the package variables and the files; Write has Log,
--   SetEnabled, writeLocked and rotate; Tail has Tail and tailFile; Init has Init; Switches the modules.
-- Latency: runLatency and verdict of main.go, runLatencyAPI of main_appliance.go.
-- Httpd: httpd/server.go, Start and Stop in Lifecycle and Schedules, the handlers and clientIP in Server;
--   httpd/geoip.go in Geo; httpd/inspector.go in Inspector, its groupHeaders in Inspector.Groups.
-- Sshd: sshd/server.go and sshd/config.go: Lifecycle, HostKeys, the accept loop in Accept, handleConn
--   in Connection, the registry of Sessions, and the Shell.
-- Admin: admin/server.go. `serve` is one request through the mux and `auth`; it changes a `Plane`,
--   which holds the state of every other part.
-- Startup, Shutdown: the lines by which main.go and main_appliance.go make and stop the three servers.
-- Daemon: main and runDaemon of main_appliance.go. A run is the autostart, the requests that the Admin
--   API serves, and the shutdown.
-- Cli: main.go and cli_client.go. Local has dispatchLocal, Repl the loop of runREPL, Remote has
--   dispatchRemote, of which each `call` of Call goes through `serve`, and Client has runCLIClient;
--   Commands lists the commands that both lines share. What is printed is a value of `Out`; Print
--   has its text.
-- Fixtures: data of the tests.
--
-- What the operating system, the network and the libraries answer is an argument of each operation
-- (`Os`, `Outside`, `Answers`), so a theorem holds for every answer unless it says otherwise.
--
-- Bounds and fuel: the loop of lookupA has its own limit of eight rounds; the loops of tailFile and
-- handleDownload run on the size of the file and of the download, which fall in every round. The counters
-- of the log, its sizes and durations are natural numbers, which assumes fewer than 2^63 bytes and
-- lines; nextID of sshd keeps its 64 bits. Case mapping, trimming and padding are those of ASCII text.
--
-- The goroutine that Start of httpd leaves behind reads the server without the mutex. Httpd.Schedules lets it
--   run at any later time; everywhere else it runs before the next operation (`start_and_serve`).
-- A panic in a handler of the Admin API is recovered by net/http, which closes the connection: the request
--   has no response and the state stays. Whether `make` accepts the capacity of the samples of a
--   latency run is an answer of the outside, and the run panics if not; that memory runs out, which ends
--   the process, is left out.
--
-- Not modelled: the SSH handshake, which is the library's; the time limits of the HTTP servers and
-- clients; the layout of JSON; the formatting of durations; the HTML and the deployment scripts.
pub mod Common
pub mod Net
pub mod Service
pub mod Dns
pub mod Logger
pub mod Latency
pub mod Httpd
pub mod Sshd
pub mod Admin
pub mod Startup
pub mod Shutdown
pub mod Cli
pub mod Daemon
pub mod Fixtures
