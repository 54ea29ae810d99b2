-- ===== src/Lib.antt =====
-- smart_assistant_api: a model of the assistant's backend, a service in Go.
--
-- The program answers HTTP requests of users who talk to an assistant. Its services keep users,
-- catalog plugins, installs of plugins and reminders in a store behind one generic interface; a
-- dispatcher ticks in the background and notifies the reminders that are due; caches, queues, a
-- rate limiter and tokens stand around the services. The files follow these parts:
--
--   Response       pkg/response/errors.go: the application errors that services return.
--   Store          pkg/store. Store.Query is query.go (the builder `Where…`, `OrderBy`, `Limit`) and
--                  the values of columns; Store.Contract is the interface `Store[T]` of store.go,
--                  with what its callers rely on; Store.Memory and Store.Memory.Crud are memory.go
--                  (`MemoryStore`, `conditionMatches`, `sortItems`, `paginate`, and the methods
--                  `Create` to `CreateMany`); Store.Meaning says what a database makes of the
--                  operators, and Store.Reference is a store with that meaning.
--   Reminder       internal/domain/reminder: entity.go in Reminder, repository.go in
--                  Reminder.Repository, service.go in Reminder.Service, dispatcher.go in
--                  Reminder.Dispatcher. Reminder.Requests puts requests and ticks in a sequence;
--                  Reminder.Lifecycle is the state machine as a step relation on rows.
--   RateLimit      pkg/ratelimit/memory.go (`Allow`, the janitor) and
--                  internal/middleware/ratelimit.go (the keys and the middleware).
--   Cache          pkg/cache: memory.go in Cache.Memory, `Typed[T]` of cache.go in Cache.Typed.
--   Queue          pkg/queue/memory.go: `Publish`, the receive of `consume`, and `dispatch` with
--                  its retries.
--   Plugin         internal/domain/plugin/entity.go and manifest.go: the catalog's entries.
--   UserPlugin     internal/domain/user_plugin: entity.go and repository.go in UserPlugin,
--                  service.go (`ListInstalled`, `Install`, `Uninstall`, `SetEnabled`) in
--                  UserPlugin.Service.
--   Auth           pkg/auth/jwt.go (`GeneratePair`, `ParseAccess`, `ParseRefresh`) and the checks of
--                  internal/middleware (`Auth`, `RequireRole`).
--   User           internal/domain/user: entity.go and repository.go in User, service.go in
--                  User.Service, with its cache of users.
--   Assistant      internal/domain/assistant. wake_word.go is in Assistant.WakeWord, .Patterns (its
--                  regular expressions and those of google_calendar_meet.go), .ReminderArguments,
--                  .LocationArguments, .MeetArguments and .Prompts; entity.go, dto.go and
--                  repository.go are in .Session; `listInstalledPluginStates` and
--                  `loadEligiblePlugin` of service.go in .Installed. Assistant.Conversation is the
--                  rest of service.go, with the meetings of google_calendar_meet.go: `executePlugin`
--                  in .Execution, `advancePlugin` in .Advance, `handlePendingAction` in .Pending,
--                  `classifyAndExecute` in .Classification, and `ProcessMessage`, `CreateSession`
--                  and `ListMessages` in .Messages.
--                  Assistant.Builtin is the folder builtin: DateTime, Prompts, Errors, Reminders,
--                  Locations and Meetings. Assistant.Composio is composio_mcp_executor.go, with its
--                  loop in Assistant.Composio.Agent. Assistant.Executors is executor.go, and
--                  Assistant.Wired is the service with these executors, as
--                  internal/app/container.go makes it.
--   AssistantSettings
--                  internal/domain/assistant_settings: `GetOrCreate` and `Update` of service.go. The
--                  wake word that they keep is the one that wake_word.go strips.
--   Availability   internal/domain/calendar/availability/service.go: `RecommendSlot` once the
--                  calendars have answered.
--   Time           what the code uses of Go's `time`: the calendar and the zones in Time.Civil,
--                  `Format` and `Parse` with the code's layouts in Time.Format and Time.Parse.
--   Dynamic        a `map[string]any` of arguments, and the tests on its values.
--   Common         Boolean tests, results, texts, association lists and the lemmas on them.
--
-- How the code corresponds. A method of a service is a function of its name, in lower case with
-- underscores, into `Exec`: a state that is passed on, and an answer or an `AppError`. What was
-- written before an error stays written, as in the program. What a call takes from outside is an
-- argument: the instants that `time.Now()` returns, the texts that `uuid.NewString()` returns, the
-- salt of bcrypt. The services run over any state and any `Store[T]` on it: its calls may fail at
-- any time, and `Contract` says what the callers rely on when they do not (a lookup by id answers
-- the row or ErrNotFound, a search answers the rows that fit, a write changes one row, a failing
-- call none). The contract is an interface that Store.Memory and Store.Reference fill.
--
-- Parameters. bcrypt, golang-jwt, the JSON codec, the transaction manager, the services that
-- Uninstall calls to clean up, the calendar tool's answers, the classifier of utterances, the
-- client of Composio, the planner of its agent, the JSON decoder of its answers, the geocoder
-- and the print of a payload for the client are parameters, with hypotheses where something is
-- relied on: a password fits its own hash, a token that was signed is read back with its claims
-- until they expire and is refused from then on. The witnesses give each of them a concrete
-- function.
--
-- Representation. An instant or a duration is in nanoseconds on the native numbers; a difference
-- that may be negative is signed or is written as a comparison, and no instant comes near the
-- bounds of int64. Instants that are printed or read count from the zero time of Go, as in
-- Availability, and Jakarta is seven hours ahead of UTC all year. Texts are sequences of code
-- points, with the length in bytes of their UTF-8, and the lower case that Unicode 15 gives each
-- letter, as in Go; a byte that a cut leaves of a character reads as U+FFFD. A map of Go is an
-- association list in which the first entry of a key counts. Free-form JSON objects are their
-- texts, and the order in which Go walks a map of weekdays is an argument. `%q` shows every
-- character beyond ASCII as it is. The maps of arguments are passed by value. The settings that
-- an executor reads are a state of its own. The clocks and ids of a turn are the fields of one
-- record. Contexts, log lines and locks are left out: each operation runs under its lock, and
-- interleavings are sequences of operations.
--
-- Fuel. `dispatch` of Queue recurs on fuel and says when it runs out; the fuel that stands for
-- the source's loop is the number of attempts the policy leaves. The digits of a number
-- (Common.Text) are found with more fuel than the number. The loop of `NormalizePlaceKeyword`
-- has as many rounds as the query has characters, and each round that goes on takes at least one
-- away. The loop of the Composio agent recurs on the rounds that are left, ten at first as in
-- the source. All else is structural recursion.
--
-- Not modelled: the HTTP handlers, the wiring in cmd, internal/app (but for the executors),
-- internal/server and internal/config, and internal/infra, which decode, encode and connect; the
-- adapters of Postgres, MongoDB and Redis, whose work a server does; the clients of other
-- services (pkg/llm, pkg/composio, pkg/github, pkg/slack, pkg/cursoragent, the geocoders of
-- pkg/places); the administration of the catalog (service.go of internal/domain/plugin), the
-- services of plugin_credential and plugin_setup; pkg/worker, whose goroutines wait on tickers;
-- and the subscription and shutdown of pkg/queue.
pub mod Common
pub mod Response
pub mod Store
pub mod Reminder
pub mod RateLimit
pub mod Cache
pub mod Queue
pub mod Plugin
pub mod UserPlugin
pub mod Auth
pub mod User
pub mod Assistant
pub mod Availability
pub mod AssistantSettings
pub mod Time
pub mod Dynamic
