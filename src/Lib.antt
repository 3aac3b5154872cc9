-- ===== src/Lib.antt =====
-- second-eye: a model of the proxy's capture and analysis, and what makes it correct.
--
-- The program. A proxy accepts connections (proxy/listener.py), reads the SNI of each TLS connection
-- (proxy/sni.py) and decides whether the host is in scope (scope/matcher.py). A connection that is not
-- in scope is relayed as it is (proxy/splice.py). One that is in scope is intercepted: its requests go
-- out again (proxy/intercept.py, proxy/upstream.py), and each exchange becomes a HAR entry
-- (capture/har.py); plain HTTP is served alike (proxy/plain_http.py), and both share
-- proxy/_http_cycle.py. The capture manager (recording/manager.py) takes its commands from the control
-- socket (recording/control.py) and appends the entries to the buffer file of the active capture
-- (capture/buffer.py). At the end of a capture the buffer is read back, the entries are classified
-- (analysis/classify.py), clustered and searched for redirect chains and polling
-- (analysis/cluster.py), described as flows and as a manifest (analysis/manifest.py), summed up in
-- signals (analysis/signals.py), and laid out as ANALYSIS.md (analysis/render.py); the files of the
-- capture are written. The daemon (daemon.py) puts these parts together, and the command line (cli.py)
-- starts it and talks to its control socket. All paths are below src/secondeye/.
--
-- The files. A definition has the name of its Python function, class or method, without a leading
-- underscore; where two would clash the name is longer (`request_to_har_dict` is
-- `HarRequest.to_har_dict`, `match_hostname` is `ScopeMatcher.match`). Loops have a definition of their
-- own, with the variables that the loop changes as arguments, and so have the stages of a long method.
--   Prelude    lists, texts (`str` as code points), Python's `==`, dicts and stable sorting
--   Json       `json` values and the standard library's codecs; Urls: `urllib.parse`
--   Har        capture/har.py: Har (types, header lookup, build_har_entry), Har/Render (to_har_dict),
--              Har/Parse (parse_har_entry), Har/RoundTrip, Har/Keys
--   Sni        proxy/sni.py: Sni/Total, Sni/Buffering
--   Scope      scope/matcher.py
--   Classify   analysis/classify.py
--   Cluster, Redirect, Polling   the three parts of analysis/cluster.py
--   Manifest   analysis/manifest.py: Manifest (records and their JSON), Manifest/Flows (build_flows),
--              Manifest/Stats (build_manifest), Manifest/Returns (when build_flows returns)
--   Signals    analysis/signals.py: Signals/Rollup, Headers, Bodies, Reuse, Outliers
--   Render     analysis/render.py: Render (parameters, inline text, bodies), Render/Summary,
--              Render/Sections and Render/Notes (the parts of a flow), Render/Raises (where urllib and
--              json raise), Render/Document (the whole)
--   Buffer     capture/buffer.py
--   Manager    recording/manager.py: Manager (state, start, record), Manager/Stop, and Manager/Reachable
--              (a step relation in which other operations run while a stop waits)
--   Control    recording/control.py; Control/Abstract is the recorder that Control/Session refines
--   Upstream   proxy/upstream.py
--   Listener   proxy/listener.py: Listener/Peeking, and Listener/Connections (the count of connections
--              as a step relation)
--   Splice     proxy/splice.py
--   HttpCycle  proxy/_http_cycle.py
--   Exchange   one turn of a client connection, which Intercept (proxy/intercept.py) and PlainHttp
--              (proxy/plain_http.py) share; Exchange/Logs reads the log of such turns
--   Daemon     daemon.py: Daemon/Starting has the outcomes of the construction
--   Cli        cli.py: Cli (helpers and `capture start`), Cli/Reports (the other commands that
--              talk to the daemon), Cli/Options (the options of `proxy start`), Cli/Capturing (the client
--              against the manager)
--   Ca, Leaf   tls/ca.py and the cache of tls/leaf.py: Ca/Persistence
--   Tests      stand-ins for the libraries, and runs on concrete inputs
--
-- How it is modelled. A method that changes the manager takes its state and returns the result, or the
-- exception, with the new state. `stop_capture` has one wait, for its output files: `begin_stop` is the
-- part before it, `finish_stop` the part after it, and `stop_capture` is both with nothing between;
-- `Step` has both as steps of their own. The wait of `record_entry` for its line is not split. The
-- files on disk are part of the state; file operations succeed, and a directory exists when a file is
-- in it. A function that may raise returns an Option, `none` for the exception. Texts are lists of code
-- points, and `lower` is exact on Latin-1, which holds all header values. Times are microseconds since
-- the epoch in UTC. Floats are their 64 bits, with abstract operations (`FloatOps`). A status in a HAR
-- file that is a negative int counts as an exception.
-- urllib and json raise on some inputs, and much of the analysis does not catch it. A function that
-- calls them has its value, which is that of the code where the calls return, and beside it a Bool that
-- tells whether one of the calls raises: `urlsplit` is a field of `Urls` with `split_raises` beside it,
-- `leads_to` has `leads_to_raises`, and so on upwards. The functions that return an Option or a result
-- test that Bool first: `build_flows`, `render_analysis_md`, `analyse` (the analysis of a stop, which
-- `analysis_raises` describes) and `handle_request` of PlainHttp. Of `json.loads` the exceptions that
-- the code catches are `none`, and `loads_raises` tells of the others. The property `port` is read in
-- plain HTTP only (`port_raises`).
-- A connection is modelled by what it meets and what it does. The outcomes of its reads, or the events
-- that h11 makes of them, are a list in order, behind which the peer has closed (`Read`, `ClientEvent`,
-- `UpstreamEvent`); the rest of what it meets is the record `Outside`. What it does is a list of actions,
-- and its end has a reason. The recorder that it calls is a function on a state of any type, so that the
-- manager's `record_entry` is one instance. Two pumps that run at the same time are one list of events
-- in order; in `splice` it is what both sides send, and what stands behind the first end stays unread.
-- A call of the network connects, fails with an OSError, or raises something else (`Attempt`);
-- the CA file of the upstream leg is taken to load. The messages of upstream errors are left out.
--
-- Parameters. Code that is not in the repository is an argument: codecs and datetimes (`Codecs`), the
-- JSON writer and reader (`JsonText`, `JsonReader`, and `Wire` for the control socket), `urllib.parse`
-- (`Urls`), idna, fnmatch and re (`Matching`, `Scanner`), floats (`FloatOps`), ipaddress and int
-- (`Parsing`), the network and ssl (`Network`), what the renderer calls of them all (`Layout`), what the
-- command line prints with (`Console`), what the daemon's construction calls (`Startup`),
-- and the cryptography library (`X509`). What is
-- documented of them is stated in `Lawful` and `WritesLines`, both met by the stand-ins of Tests.
--
-- Bounds. The two loops of the SNI parser take one more fuel than the end of the range that they walk;
-- each round moves on by three bytes or more, so it is enough. All other loops recur on a list.
--
-- Not modelled: binding and closing of sockets, the event loop, the TLS stream of proxy/intercept.py
-- over memory BIOs and its handshake, what certificates contain (tls/), and of the command line the
-- declaration of its options and the `ca` commands. They are I/O around the core, or calls of
-- libraries.
pub mod Prelude
pub mod Json
pub mod Har
pub mod Sni
pub mod Urls
pub mod Classify
pub mod Cluster
pub mod Redirect
pub mod Polling
pub mod Manifest
pub mod Signals
pub mod Buffer
pub mod Scope
pub mod Manager
pub mod Tests
pub mod Render
pub mod Control
pub mod Upstream
pub mod Listener
pub mod Splice
pub mod HttpCycle
pub mod Intercept
pub mod PlainHttp
pub mod Exchange
pub mod Daemon
pub mod Cli
pub mod Ca
pub mod Leaf
