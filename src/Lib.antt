-- ===== src/Lib.antt =====
-- nanoLDAP, a read-only LDAP server with a web interface for its users and groups.
--
-- The program's parts and how they interact. internal/app opens the store (SQLite, internal/store),
-- the session store (internal/session), the audit log (internal/audit) and the directory settings
-- (internal/directory), and starts the LDAP server (internal/ldapserver) and the web server
-- (internal/web). The LDAP server reads BER packets from a connection, makes messages of them and
-- handles each by its operation. A bind asks the shared limiter for the client's address, then the
-- store for the password; a search takes the users and groups of the store, keeps what the bound user
-- may see, and filters it. The web server keeps its sessions in the session store and revokes those of
-- a user whose account changes.
--
-- Which file models which part:
--   Prelude, Prelude/*        tests, lists and results that all parts share
--   Text, Text/*              what the program calls of Go's strings, strconv and base64, on bytes
--   Assoc                     Go maps: association lists with at most one pair per key
--   Ber/Reader                internal/ldapserver/ber.go: readPacket, decodePacket, readLength, packet.*;
--                             internal/ldapserver/debug.go: decodeMessages
--   Ber/Writer                internal/ldapserver/ber.go: appendLength and the ber* functions
--   Directory                 internal/directory/settings.go: NormalizeBaseDN and Settings
--   Dn                        internal/ldapserver/server.go: normalizeDN, dnWithinScope, usernameFromDN
--                             and the functions that build names
--   Filter                    internal/ldapserver/filter.go: parseFilter, Match, matchesAttributeValue
--   Entry                     internal/ldapserver/server.go: the entries and selectedAttributes;
--                             internal/store/store.go: User, Group, IsMemberOf
--   Visible                   internal/ldapserver/server.go: visibleEntries
--   Limiter/Counter, /Window  internal/ldapserver/server.go: rateCounter.Allow, windowLimiter.Allow
--   Session                   internal/session/store.go: Create, Get, Delete, RevokeUser, cleanupLocked
--   Message                   internal/ldapserver/server.go: readMessage, parseSearchRequest and the
--                             packets of the responses
--   ResultCode                internal/ldapserver/server.go: the LDAP result codes
--   Connection                internal/ldapserver/server.go: connState, and what a handler leaves;
--                             internal/audit/audit.go: LDAPBind
--   Server                    internal/ldapserver/server.go: handleMessage, handleBind, handleSearch;
--                             Server/Accepts says of a bind, without their code, when it is to succeed
--   Debug, Debug/Trace        internal/ldapserver/debug.go: the formatting functions;
--                             internal/ldapserver/server.go: logRequest, logResponse
--   Serving                   internal/ldapserver/server.go: Serve, handleConn
--   Accounts                  internal/store/store.go: uniqueNames, displayOrUsername, UserInput, GroupInput
--   Sql                       internal/store/store.go: the tables of Migrate, and each SQL statement
--   Store, Store/Seed         internal/store/store.go: the methods of Store, and SeedDefaults
--   Password                  internal/auth/password.go: HashPassword, parsePHC, VerifyPassword
--   HttpLog                   internal/httplog/filter.go: the filter of the servers' error log
--   Web                       internal/web/server.go: login, logout, withAdminAuth, currentUser and the
--                             handlers that change users and groups
--   Site                      internal/web/server.go: the routes of SecureMux over the store, with
--                             handleCreateUser, handleCreateGroup and handleUpdateBaseDN
--   Config                    internal/config/config.go; cmd/nanoldap/main.go: hasEnabledListener
--   App                       internal/app/app.go: New
-- The files below a module's name hold its theorems. Tests, and what stands below it, runs the
-- definitions on concrete inputs.
--
-- State and operations. A Go struct is a record, an operation takes it and returns it with its
-- result. A method under a lock is one step. The clock, the random source and the store's answers
-- are arguments: `Backend` and `Database` hold the calls of internal/store that the handlers make,
-- and `visit`, the order in which a `range` over a map goes. `Sql` has the tables as lists of
-- rows, in the order of their ids, with the constraints of the schema tested by each statement; a
-- transaction of `Store` works on a copy of the tables, which an error drops. `key` stands for
-- argon2.IDKey, and `hash` for HashPassword with the salt that it draws. `quote` stands for
-- strconv.Quote. The rounds of a connection's loop meet the store, the shared limiter and the
-- clock as other connections leave them: a `Turn` for each round. A Go error is a value of the
-- component's own error type, or `none` where the caller only tests it.
--
-- Numbers and bounds. A byte is a number below 256, a Go int is the 64-bit pattern of its two's
-- complement, with `% 2 ^ 64` written out where it wraps; a row's id is a number, and an id in a
-- request's path is such a pattern, above every row's where it is negative; times are nanoseconds since the zero
-- time. `read_packet` spends a unit of fuel on each packet and each nesting level, and `read`
-- starts with the length of the input and one: every packet takes at least two bytes, so that is
-- enough, as Ber/Fuel proves. `decode_messages` starts with the length and two for the same
-- reason. `drain` takes a line off the input in each round, so the length and one is enough, which
-- HttpLog/Stream shows. The loop of `serve` takes at least two bytes off the stream with each
-- message, as Serving/Loop proves.
--
-- Not modelled. Case folding and trimming treat ASCII only, where Go folds the letters of Unicode
-- too: names outside ASCII are outside the model. Failures of SQLite's own input and output, and
-- of its time format, are left out; it compares names byte by byte. TLS, the contents of the web
-- pages, the attributes of the cookies, and the start and the shutdown of the listeners are left
-- out; the file and network I/O, the certificate generation and the HTML templates are calls of
-- libraries.
pub mod Prelude
pub mod Text
pub mod Assoc
pub mod Ber
pub mod Directory
pub mod Dn
pub mod Limiter
pub mod Session
pub mod Filter
pub mod Entry
pub mod Visible
pub mod Message
pub mod ResultCode
pub mod Connection
pub mod Server
pub mod HttpLog
pub mod Sql
pub mod Accounts
pub mod Password
pub mod Store
pub mod Debug
pub mod Serving
pub mod Web
mod Tests
pub mod Site
pub mod Config
pub mod App
