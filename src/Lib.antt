-- ===== src/Lib.antt =====
-- The attestation service of stattii: who says that an event takes place, who is told when it does
-- not, and the proof that they were told. The library models internal/core, the package that owns
-- the state, and around it internal/icsimport, which reads a calendar, internal/ics, which writes
-- one, and the limiter and the sessions of internal/httpapi. Everything in the core runs under one
-- mutex, so an operation is a function from the service to its answer and the service after it;
-- the one part that runs without the mutex, the sends, is an argument of the delivery pass.
--
-- - Base: notation, lists, texts and results that the other modules share.
--
-- - Model: the domain rows of internal/core/core.go (with those of import.go, invite.go and
--   telegram_onboard.go) and the lookups of State. A time is the number of its nanoseconds since
--   the zero time, so 0 is the zero time.Time and Go's subtraction of a duration is an addition
--   on the other side.
--
-- - Service: the Service struct of internal/core/service.go with its store, and saveLocked,
--   auditLocked, noteStoreFailureLocked, notifyAdminLocked, enqueueLocked and
--   fireWebhooksLocked. Service.Frame says what these leave alone, Service.Health what they
--   guarantee of the store.
--
-- - Lifecycle: CreateEvent, ConfirmEvent, CancelEvent, MoveEvent, ReinstateEvent and
--   fanOutLocked. Lifecycle.Recipients is the abstract view of a propagation: the list of
--   messages that the tables owe; Lifecycle.Propagation, Tail, Transactions, Flips, Branches and
--   Reinstatement refine it step by step to the operations, and Lifecycle.Fields says of each
--   field of the row what a change leaves in it.
--
-- - Links: linksLocked, revokeLinksLocked, lookupLinkLocked, ApplyAction and VerifyTelegramActor
--   of internal/core/links.go.
--
-- - Redaction: internal/core/redact.go, what of a target or an error a record shows.
--
-- - Deliveries: Propagation, pruneOutboxLocked, collectOutboxLocked, recordDeliveries of
--   internal/core/outbox.go and RetryOutbox of views.go.
--
-- - Deletion: internal/core/delete.go. Staffing: Unassign, UnassignSeries and PatchChannels of
--   internal/core/people.go, Assign of service.go.
--
-- - Scheduler: tickRemindersLocked, tickNudgesLocked and tickDeadlinesLocked of
--   internal/core/outbox.go, with the format check of an address and the channel scan of
--   internal/core/channels.go. A pass visits the events by id. Ticks puts the passes and the
--   delivery together to tickLocked and Tick.
--
-- - Onboarding: internal/core/telegram_onboard.go. Views: the lists of internal/core/views.go,
--   Overview and SendTest. Settings: Config.validate and Config.fill of
--   internal/core/service.go.
--
-- - Portal: internal/core/portal.go, with ProposeMoveViaLink of links.go: what a person may
--   change or propose, and how the operator decides.
--
-- - Registry: AddPerson, AddBroadcast, AddWebhook and their deletions of
--   internal/core/service.go, UpdatePerson of people.go, with restoreShown of redact.go.
--
-- - Guests: internal/core/invite.go: CreateInvite, RevokeInvite, ResolveInvite, RSVP with its
--   validation, Invite and RemoveGuest. Guests.Kept and Guests.Cap say what an answer leaves and
--   how many guests there can be, Guests.Closing what a closed list still does.
--
-- - Recurrence: internal/icsimport: Parse in Unfolding, Times and Parse, parseRule in Rule,
--   expandRule with monthCandidates in Months and Series, and Expand. A text is the list of its
--   characters. Recurrence.Spending, Rounds and Ending follow the budget through the loops,
--   Recurrence.Window through Expand.
--
-- - Import: internal/core/import.go: SyncCalendar in Occurrences (one function per branch),
--   Asking (askVanishedLocked and the page) and Sync; noteImportResultLocked, LastImport,
--   VanishedEvents and AssignSeries in Bookkeeping; FetchCalendar with fetchOnce of scheduler.go
--   in Fetch, where the HTTP client is an argument. Import.Standing says what a fetch leaves of
--   an event, Import.Held and Import.Merging show it step by step.
--
-- - Feed: internal/ics/ics.go, over the code points of a text, read back by the unfolding and
--   the unescaping of Recurrence. Feed.Reader has the specification: physical lines, their
--   octets, and the line breaks that an escape forgets.
--
-- - Access: internal/httpapi/limiter.go and adminsession.go, whose maps are lists with one entry
--   for each key. The tokens are float64 in the source; its operations and Duration.Seconds are
--   a parameter of the limiter (Access.Limiter.Float64), and what the sweep needs of their
--   rounding is Access.Rounding.IsRounded, which whole numbers meet. The clock of both does not
--   run backwards.
--
-- - Poller: internal/channel/telegram_poller.go, which handles presses and /start messages with
--   telegramApply of cmd_serve.go and BindTelegram. A run is a number of rounds; what getUpdates
--   returns in each of them is an argument.
--
-- - Examples: a small concrete service and runs of the operations on it.
--
-- The service takes its surroundings as data. Env holds the draws of crypto/rand, the answers of
-- the store to each write, and functions of the standard library whose result the code only passes
-- on (time formatting, JSON, HMAC, the URL and address parsers, the URL pattern, number
-- formatting); reallocates says when an append to a slice moves it, which matters once:
-- recordDeliveries writes through a pointer that it takes before an append. The clock stands still
-- within one operation, as under SetClock.
--
-- auditLocked and notifyAdminLocked call each other when the store fails. The model runs them on
-- fuel 2, and Service.Health.Fuel shows that more never changes the result. The loops of
-- expandRule have no bound of their own; each round spends a step of the budget, so they run on
-- one round more than the budget of the event, which Recurrence.Ending shows to be enough. Every
-- other loop is structural over a list.
--
-- The calendar is a parameter too: a Zone is a location with the time.Date, AddDate,
-- ParseInLocation and the parts of a time that Go has for it, and Std holds strconv.Atoi, the case
-- mapping, the quoting and time.LoadLocation. Nothing is assumed of them.
--
-- Not modelled: the values that the code returns beside an error, the ids that the errors of
-- Assign wrap, the time stamp on an audit line, log output, the order in which a Go map prints its
-- keys, and the lock itself. Rows are found by their id and written back to the first row with
-- that id, as Go does through its pointers; ids come from crypto/rand. Durations do not saturate,
-- sort.Slice keeps the order of equal starts, and a time on or after the zero time is assumed
-- throughout. The JSON store, the sends of the channels, the rest of the HTTP layer and the
-- commands are not modelled: they are I/O, rendering and glue around the operations here.
pub mod Base
pub mod Model
pub mod Service
pub mod Lifecycle
pub mod Links
pub mod Redaction
pub mod Deliveries
pub mod Deletion
pub mod Staffing
pub mod Scheduler
pub mod Portal
pub mod Registry
pub mod Guests
pub mod Import
pub mod Recurrence
pub mod Feed
pub mod Access
pub mod Poller
pub mod Settings
pub mod Views
pub mod Ticks
pub mod Onboarding
pub mod Examples
