-- ===== src/Lib.antt =====
-- A model of NovitaBox, which runs sandboxes (virtual machines and containers) on a host.
--
-- The program's parts. boxapi serves HTTP and calls boxlet. boxlet keeps the records of sandboxes,
-- images, templates and snapshots in a SQLite store, gives every running sandbox a network slot with
-- its addresses, and drives one boxshim per sandbox. boxproxy sends requests to the sandboxes. boxd is
-- the agent inside a sandbox.
--
-- Common: lists, Boolean tests, results, and the names that the other modules share. A Go pair of a
-- value and an error is `Result`.
--
-- Store: internal/storage/store and internal/storage/store/sqlite. `Store.Table` has the SQL
-- statements over a table as a list of rows, with the unique indexes; `Store.Order` is ORDER BY.
-- `Store.Records` has the records, the tables (`Db`) and the rules of the indexes (`IsValid`).
-- `Store.Sandbox` is sandbox.go (CreateSandbox is create_sandbox, and so on), `Store.Transition`
-- is transition.go, `Store.Artifact` is artifact.go and `Store.Build` is template_build.go. Each
-- operation that changes the database takes the clock's reading and returns its result with the
-- new database; a transaction that fails returns the old one. `Store.Migrations` is migrations.go,
-- with the effect of a migration's SQL text and the failures of the database's calls as
-- parameters. `Store.Request` is the type of all changes that the Store interface offers, and runs
-- of them. SQLite serialises its writers, so a run of requests is an order in which concurrent
-- calls take effect. A time is its Unix seconds. encoding/json is the parameter `Json`. The loop
-- over candidate slots has maxSlot + 1 rounds of fuel, which is proved to be enough. Outside of
-- the migrations, errors of the database driver and of the disk are not modelled.
--
-- Network: internal/boxlet/server/network.go, the addresses of slots (`Network.Net`: indexedIP,
-- networkSlotsForCIDR, vethAddrsForSlot, networkSlotFromHostAccessIP, MaxSlots), with uint32
-- arithmetic written out. Go's net package is the parameter `NetLib`, and `NetLaws` says what is
-- relied on, of networks with a mask of 32 bits only: a network of IPv4 addresses that is written
-- as one of IPv6 has a longer mask, and the code refuses it. `Network.Spec` is SpecForSlot and
-- Complete. The ip and iptables commands are not modelled.
--
-- Boxlet: internal/boxlet/server/services.go, the sandbox service, with the overlaybd provider of
-- internal/rootfs/overlaybd/provider.go. A handler is an `Exec`: it runs on a `World`, which is the
-- database and the calls made so far, under an `Env`, which has the configuration and answers every
-- call outside (`Effect`: files, containerd, the network commands, the boxshim process, the agent) as
-- it likes, from all that went before. `Boxlet.Sandboxes` has PauseSandbox, ResumeSandbox,
-- StartSandbox, StopSandbox, RebootSandbox and KillSandbox (pause_sandbox, and so on), `Boxlet.Create`
-- has CreateSandbox (create_sandbox_runtime), `Boxlet.Steps` and `Boxlet.Rootfs` what they share, and
-- `Boxlet.Spec` the runtime specifications. An error return with its cleanup is `on_error`. A handler
-- runs alone on the database: requests that interleave with it are not modelled, nor is a cancelled
-- context. The polling loops for the agent and the shim are one call each.
--
-- Boxd: internal/boxd/server/process.go, the agent's processes. A Go string is its bytes here.
-- `Boxd.Wire` is the protobuf wire format with varints and walkProtoFields, whose loop has the
-- length of the message as fuel, which is proved to be enough; `Boxd.Base64` is
-- base64.StdEncoding; `Boxd.Messages` has the messages (connectStartRequest is
-- ConnectStartRequest, and so on), `Boxd.Messages.Requests` their readers (unmarshalProtoSelector
-- is unmarshal_selector) and `Boxd.Messages.Responses` the writers; `Boxd.Body` is
-- readConnectRequest and writeConnectEnvelope. A map is a list of entries in the order of one
-- iteration. `Boxd.Hub` is outputHub with its channels, `Boxd.Processes` the table of processes
-- and its selectors, and `Boxd.Handlers` the handlers of the Connect API, which see the operating
-- system through the parameter `Os` and record the calls that they make. encoding/json is a field
-- of `Os`. `Boxd.Handlers.Rest` has the REST handlers, and `Boxd.Stream` the stream of a process
-- to a client. `Boxd.Mux` has the routes of internal/boxd/server/server.go. The websocket handler,
-- /exec, /admin/reexec and the opening of terminals and pipes are not modelled.
--
-- Boxproxy: internal/boxproxy/server/server.go, the choice of a route (`Boxproxy`: handle_sandbox)
-- and the address and URL of a sandbox (`Boxproxy.Targets`: host_access_ip, boxd_http_url). The
-- host parser of Go's net package is the parameter `HostLib`. The copying of bodies and messages
-- is not modelled.
--
-- Boxshim: the stub driver of internal/boxshim/runtime/stub.go, the unsupported driver and the service
-- of internal/boxshim/server/server.go over the interface `Driver`. `Boxshim.Machine` is the machine
-- that the stub runtime refines. The drivers of firecracker and runsc are not modelled.
--
-- Config: internal/config, with path/filepath and net as the parameter `HostLib`.
--
-- Tests: concrete parameters and runs.
--
-- Not modelled: the generated protocol code, the command line tools and logging (glue); the calls of
-- the operating system, of containerd, firecracker and runsc (outside calls); and so far the template
-- and image services of internal/boxlet/server/services.go, the HTTP handlers of internal/boxapi, the
-- firecracker and gVisor drivers of internal/boxshim/runtime, and the copy loops of internal/wsutil.
pub mod Common
pub mod Store
pub mod Network
pub mod Boxd
pub mod Boxproxy
pub mod Boxshim
pub mod Config
pub mod Boxlet
mod Tests
