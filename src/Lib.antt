-- ===== src/Lib.antt =====
-- drip is a tunnel server: a client keeps a connection to it open, and the server forwards what
-- arrives under a public name, a subdomain or a TCP port, over that connection. A registration
-- first has its token judged by the authenticator (internal/server/auth), which keeps what it
-- read of the database for a while. It then goes through the handler of internal/server/tcp. The
-- handler asks the resolver (internal/server/reservations), which turns the request into a name
-- or port, from the reservations that the store (internal/server/store) holds; it takes a port of
-- the allocator; and it has the tunnel manager (internal/server/tunnel) admit the tunnel against
-- the limits and keep it under the name until it is unregistered, goes stale, or the server shuts
-- down. A later failure gives back what was taken. Operators manage accounts, clients and
-- reservations in a panel (internal/server/admin) with its own tables of operators and sessions;
-- its changes drop credentials from the cache of the authenticator. A client (internal/client)
-- keeps a pool of sessions to the server, and a runner connects each tunnel again when it is
-- lost. Both sides check their configuration files (pkg/config) when they start.
--
-- - Base: lists, byte strings, maps, results and integers that all parts share; Base.Pairs has the
--   lemmas on rows of which no two may clash.
-- - Names: internal/shared/utils/subdomain.go and url_builder.go, `parseTCPSubdomainPort` of
--   internal/server/tcp/connection.go, `NormalizeTunnelType` of internal/server/store.
-- - Tunnel.RateLimiter: internal/server/tunnel/rate_limiter.go.
-- - Tunnel.Shards, Tunnel.Manager: internal/server/tunnel/manager.go, and of connection.go the
--   fields that the manager reads or writes. A registration is a chain of steps on the manager
--   (`admit`, then `name_tunnel`), an error ends it with the state that the rollbacks leave.
-- - Tunnel.Sections: the same `RegisterOwned` and `Unregister`, cut into the sections that run under
--   one lock or on one atomic counter. A `Task` says where a call stands, `section` runs its next
--   section, and `Steps.Reach` are the states of the manager with any number of calls under way. A
--   round of the compare-and-swap loop is two sections, a load and a swap that may fail.
-- - Store.Reservations: internal/server/store/reservations.go. A statement is a function on the list
--   of rows; `collides` is the primary key and the two partial unique indexes of schema.go.
-- - Store.Database: internal/server/store/accounts.go and clients.go, with the references of
--   schema.go; Store.Database.Statements has the writing calls of all three tables as data.
-- - Resolver: internal/server/reservations/resolver.go, over the interface `ReservationStore`.
-- - Tcp.Ports: internal/server/tcp/port_allocator.go. Maps of ports are functions.
-- - Tcp.Registration: internal/server/tcp/registration_handler.go; each early return of `Register` is
--   an error branch of `with_resolution`, `with_port`, `registered` or `finish`.
-- - Protocol.Frames: internal/shared/protocol/frame.go, on lists of bytes.
-- - Auth.Credentials: internal/server/auth/credential.go.
-- - Auth.Authenticator: internal/server/auth/authenticator.go, over the interface `CredentialStore`;
--   `Readings.Reach` are its states along a history of the store.
-- - Store.Sessions: internal/server/store/active_sessions.go.
-- - Store.Admins: internal/server/store/admin_users.go and sessions.go; Store.Admins.Integrity has the
--   writing calls as data.
-- - Auth.Passwords: internal/server/auth/password.go, over a record of the external functions,
--   `Crypto`.
-- - Tcp.Lifecycle: internal/server/tcp/lifecycle_manager.go; `set_registration` is what
--   `handleRegister` of connection.go passes on to it.
-- - Tcp.Groups: internal/server/tcp/connection_group.go. What a session of yamux answers in an
--   attempt is a record of `Answers`, an argument.
-- - Units: internal/shared/units/bandwidth.go. Access: internal/shared/netutil/ipaccess.go.
-- - Admin.LoginLimiter: the throttle of internal/server/admin/session.go.
-- - Admin.Panel: internal/server/admin/session.go, api_session.go and the guards of server.go. A
--   handler returns the panel and a reply, a status where it refuses; the routes that the property on
--   histories ranges over are the events of Admin.Panel.History.
-- - Admin.Resources: internal/server/admin/api_resources.go and api_pin.go, on a `Console` that joins
--   the database, the live sessions and the authenticator.
-- - Client.Pool: internal/client/tcp/pool_session.go, session_scaler.go and the sizes of
--   pool_client.go. In Client.Pool.Bounds handshakes, losses and ticks come in any order; a tick is one
--   step.
-- - Client.Supervisor: internal/client/cli/tunnel_supervisor.go.
-- - Config: pkg/config/config.go and client_config.go.
-- - Examples: the theorems applied at concrete inputs.
--
-- A string is the list of its bytes, and the functions on letters and spaces treat the ASCII range;
-- on other letters, the source's may differ. A port, a counter or a limit is a natural number, but
-- where the source tests it for a negative value; a negative one would take the branch of 0. The
-- global counter is never lowered at 0 in a state that the invariant describes. A call reads the
-- clock once, and times are natural numbers of nanoseconds, in the store of seconds. Random numbers
-- and new ids are arguments: a random number is below 36, the count of the letters that it picks
-- from. Recursion is on lists or on the number of rounds that the source names (32 attempts, 32
-- shards, 3 attempts at a stream, the ports of a range), so no fuel is chosen; a number n is printed
-- in at most n + 1 rounds.
--
-- But for the calls in Tunnel.Sections, calls run one at a time. There a lock is held for a
-- section, which is one step, each round of the compare-and-swap loop is a load and a swap;
-- waiting for a lock is not modelled. A statement of the database is one step. Log lines,
-- metrics, sockets, the write pump and the text of errors are left out, and so are the rest of
-- the server and the client, which read and write sockets for the most part, the listings of the
-- panel and its audit log. A fault of the database is an error of the store. Whether the system
-- lets the server listen on a port, what the recorder of sessions answers, the hash of a secret
-- or a token and its encoding, the functions of Argon2id, the parsers of the package net and the
-- table of groups are arguments.
mod Base
pub mod Names
pub mod Tunnel
pub mod Store
pub mod Resolver
pub mod Tcp
pub mod Protocol
pub mod Auth
pub mod Units
pub mod Access
pub mod Admin
pub mod Client
pub mod Config
mod Examples
