-- ===== src/Lib.antt =====
-- House Jukebox: a media player for a household, whose listeners share one queue. This library models
-- the queue, the votes on it, the HTTP handlers that change it, the controller that plays it, the
-- accounts and sessions of the listeners, and the library of what they keep and played.
--
-- The parts. `internal/queue/store.go` keeps the queue and the playback state in two tables of SQLite;
-- every change that a client asks for carries the revision that it saw. `internal/app/voting.go` counts
-- votes of active listeners on skipping and removing. `internal/app/queue.go` holds the handlers, which
-- decide by session, votes and revision whether the store is called, and a limiter for submissions.
-- `internal/playback/controller.go` is a loop that four times a second compares the queue with what
-- the player (`internal/player/player.go`) has loaded, and that stores what the player reports.
-- `internal/player/mpv.go` turns the messages of mpv into these reports, `internal/source/source.go` says
-- which urls can be played, and `internal/settings/store.go` keeps the settings.
-- `internal/auth/store.go` keeps users, roles and sessions; `internal/app/auth.go` and
-- `internal/app/admin.go` are the handlers on it and on the settings, and the chain of checks of
-- `internal/app/app.go` stands before every handler. `internal/library/store.go` keeps stations,
-- playlists, likes and the history of what was played, and `internal/enrichment/enrichment.go` reads artist
-- and title off the title of a track. `internal/autoqueue/engine.go` fills the queue by itself; which
-- listener it takes a turn for is part of this library.
--
-- The files.
--   Base           lists, maps, integers, tests and texts, over the native numbers
--   Queue/Rows     the types of store.go, and the rows of `queue_items` and `queue_state`
--                  (internal/database/migrations/001_foundation.sql)
--   Queue/Table    the statements that sort and renumber: `compact`, and the loops of `Reorder`
--   Queue/Store    Snapshot, AddSourceTitled, mutate, Remove, Clear, Skip, Reorder
--   Queue/Playing  SetCurrent, UpdatePlayback, SetVolume, SetPaused, FinishCurrent, RetryCurrent,
--                  ResetPlayback, ReconcilePlayback
--   Queue/Calls    all of these as one type of calls; below Queue the other files hold the proofs
--   Queue/Line     what listeners see of the queue, as an abstract machine over ids
--   Voting/Policy, Voting/Manager   votePolicy and voteManager; Voting/Thresholds and Voting/Ballots
--                  hold the proofs
--   Api/Limiter    rateLimiter
--   Api/Requests   listenerID, clientIP, requiredRevision, queueError, attachVote
--   Api/Handlers, Api/Submission   the handlers of queue.go and voteToSkip, and all of them as one type
--   Api/Effects, Api/Service, Api/Permissions   the proofs on them
--   Playback/Model, Reconcile, Events, Commands   Controller and its methods; Playback/Steps makes
--                  each a step, and the other files hold the proofs
--   Playback/Mpv   handleEvent and Load of internal/player/mpv.go
--   Playback/Requests   the handlers of internal/app/playback.go
--   Sources/Adapters, Sources/Registry   internal/source/source.go; Sources/Classes holds the proofs
--   Config/Store   internal/settings/store.go; Config/Secrets holds the proofs
--   Accounts/Rows, Names, Store, Sessions   internal/auth/store.go; Accounts/Calls makes its methods
--                  one type of calls; Roles, Writes, Invariant, Lifetime and Tokens hold the proofs
--   Web/House      the state behind internal/app, and its requests and replies
--   Web/Signing, Web/Admin, Web/AutoQueue   the handlers of internal/app/auth.go, internal/app/admin.go
--                  and internal/app/autoqueue.go
--   Web/Routes     authenticate, requireInstallation, protectMutations, enforceAccess and the routes of
--                  New; the other files of Web hold the proofs
--   Library/Rows, Store, Playlists, History   internal/library/store.go; Library/Plays makes the calls
--                  on the history one type; Segments and Single hold the proofs
--   Library/Handlers   the handlers of internal/app/library.go; Ownership and Privacy hold the proofs
--   Enrichment/Titles   ParseTitle of internal/enrichment/enrichment.go; Cleaning and Splitting hold the
--                  proofs
--   AutoQueue/Turns   fairUser and markUserSelected of internal/autoqueue/engine.go; Order, Fairness and
--                  Ages hold the proofs
--   Tests          in each part: concrete data, and each result applied to it
--
-- How it is modelled. A transaction is a function from a database to a result; an error leaves the
-- database as it was, which is the deferred rollback. The program opens SQLite with one connection, so
-- that transactions run one after the other. A statement checks a unique column row by row in the order
-- of the rows, as SQLite does: this is why positions are negated before they are numbered. A handler and
-- a method of the controller are one step each, with one reading of the clock. Times are nanoseconds,
-- seconds of playback are whole numbers, which are only stored, and the revision is unbounded. The
-- threshold of the votes is computed in whole numbers, which agrees with the rounding of the float for
-- any number of listeners that a household has. `strconv` and `strings` are written out over code points.
-- Every loop runs over a list, save that over the suffixes of a title: its fuel is the length of the
-- title, which is enough since each round but the last makes the title shorter.
--
-- Arguments of the definitions, for what stands outside: fresh ids and time stamps, the session of a
-- request, what `net.SplitHostPort` and the JSON decoder answer, what `Classify` and `Resolve` of
-- internal/source answer, what the player answers, the parser of urls, the cipher of the settings,
-- SHA-256, the hash of passwords, the text of a moment, Go's case folding, the
-- order in which a map is visited, and what the regular expression on the suffixes of titles deletes. Calls of the player, of
-- the history and of the observer of titles are recorded in a list.
--
-- Not modelled: failures of the database other than violated constraints; interleavings within one
-- method of the controller; logging, headers and texts of messages; and the parts of the program
-- named in no file above (the process and the socket of mpv, the dashboard of an account, the encoding
-- of passwords, the automatic queue beyond the turns of users, the rest of enrichment, start-up and the
-- web client). A user is never deleted, and the tables of the library take for granted that their users
-- exist.
pub mod Base
pub mod Queue
pub mod Voting
pub mod Api
pub mod Sources
pub mod Config
pub mod Accounts
pub mod Web
pub mod Library
pub mod Enrichment
pub mod AutoQueue
pub mod Playback
