-- ===== src/Lib.antt =====
-- imps is a Go framework for agents ("imps") that react to NATS messages: an imp declares channels,
-- a cheap awareness function, an expensive thinking function and per-entity state. This library
-- models the framework's code and proves what its parts promise.
--
-- The files, and the code that each is about:
--   Base            shared names; Go's maps (Base/Assoc), integers (Base/Int), lists and tests
--   Errors          errors.go, state.go: the typed errors and `errors.Is` on them
--   Spec            spec.go, channel.go, verdict.go: the data of an imp
--   Validate        validate.go: `validateSpec` and its loops; Validate/Sound has its meaning
--   Registry        registry.go: `newRegistry`, `ref`, and `stateRef`'s Get, Set and Update
--     Calls         one call of `ref` at a time
--     Shapes        all shapes over their one memory
--     Race          any number of calls of `ref`, one shared access at a time
--   Persist/Lru     persist/store.go: the resident entries, `insert` and its eviction loop
--   Persist/Store   persist/store.go, persist/codec.go: `NewStore`, `Get`, `Update`, `Delete`
--     History       any calls on a store, beside a map; Maps and Bound have what they return,
--                   Resident what they leave in memory, Beside two stores in one bucket
--     Keys          what `key` makes of the names of two stores
--   Persist/Backend persist/backend.go: `KVBackend`; Laws has what it gives the store
--   Persist/Beacon  persist/beacon.go: the restart clock; Shared has it beside a store
--   Metrics         metrics_internal.go: the counters
--   Dispatch        dispatch.go, note.go, thinking.go, stream.go (`dispatchStream`): a message on its way
--     Agree         `dispatch` and `dispatchStream` beside each other
--     Gauge         events in any order, and the gauge and wait group of thinking
--     Counted       the counters
--     Answers       the answers to JetStream
--   Request         request.go: `requestSingle`, `requestMany` and their options
--     Single        the timeout, the counters and the errors of one request
--     Many          what `requestMany` collects
--     Calls         its subscription, and its end
--   Consumer        stream.go (`buildConsumerConfig`, `compatDiff`, `itoa`, `resolveConsumer`)
--     Decimal       what `itoa` writes
--     Diffs, Existing
--                   the check of a durable consumer that exists
--   Channels        start.go, stream.go: the binding of channels
--     Teardown      `unwind`
--     Ledger        what the imp holds on the substrate, and `unwind`
--     Names         the names of consumers on the substrate
--     Refusals      the ephemeral consumers that could not be deleted
--     Start, Order  whichever way `start` ends; which channels it binds
--     Twice         `unwind` a second time
--   Lifecycle       internal/lifecycle/state.go: the state of an imp
--   Options         options.go, and `NewImp` of imp.go
--   Imp             imp.go: calls of `Run` and `Shutdown`, one step at a time
--     Single, Agreement
--                   who starts the imp, and what calls of `Shutdown` return
--     Awaited, Drain
--                   the goroutine and the `select` of `waitDrain`
--     Steps, Alone  one `Run` and one `Shutdown` with nothing between their steps
--     Session       one `Run` with messages and an interrupt
--     Faults        a history in which the imp goes wrong
--     Unbooted      an imp whose default timeouts are refused
--     Booted        what of a runtime nothing moves
--     Limits        how long the requests of an imp wait
--     Reports       what an imp says of itself: `Ready`, `Identity`, `Metrics`
--   Contexts        context_awareness.go, context_thinking.go: what the callbacks are handed
--     Code, Steps   context.go: callbacks as the calls that they make, run alone or interleaved
--     Memory        what they leave of the registry
--   Schedule/Register, Headers
--                   schedule/register.go: `Register`, `Deregister`, and what the server is told
--   Schedule/Channel, Ticks
--                   schedule/channel.go, schedule/tick.go: the channel of a schedule's ticks
--   Schedule/Firing the tick of a registered schedule, from the server to awareness
--   Soulstream/Topic
--                   soulstream/channel.go, soulstream/op.go: the channel of a topic
--   Soulstream/Bridge
--                   soulstream/notebridge.go, soulstream/participant.go: notes as comments;
--                   Posts has the comments of a history of notes
--   Echo            examples/echo/main.go: the worked example; Published has what it publishes,
--                   Main is `main`, and Ends what it does in the end
--   Tests           the theorems at concrete inputs, and runs of the code
--
-- How Go is read. `any`, error values from elsewhere and callbacks are parameters. A function that
-- returns a value and an error returns a pair with an `Option`, where `none` is Go's nil. Go's int,
-- int64 and time.Duration are integers without bounds. Maps are association lists with text keys.
-- A panic is a result of its own (`none`, or a constructor) where the code can panic.
--
-- Fuel. The eviction loop of `insert` is given one round more than the list has elements; each
-- round removes an element, and Persist.Lru.Evict proves that the fuel is never used up. The
-- loop of `itoa` is given the 20 places of its buffer, and a 64-bit integer has 19 digits at most.
--
-- Interleaving. The registry's calls take one step at each access to the shared counter or the
-- `sync.Map`; the calls of the durable store hold its lock and are one step each. A message is
-- dispatched in one step, and a thinking goroutine takes one step for the user's function and one
-- for each deferred call. The binding of one channel and one `unwind` are one step each, and what the
-- substrate answers to a call may depend on all the calls before it. `Run` and `Shutdown` take one
-- step at each access to the state, the once guard and the channels they wait on; the goroutine of
-- `waitDrain` and the passing of time are steps of their own, and its timer may fire once the drain
-- window has passed, at once if that is zero or less.
-- A call that a callback makes of its context is one step, and what the callback computes between two
-- of them is part of the first.
--
-- Not modelled: log lines, the test server, panics of a channel's decoder and extractor, which
-- nothing recovers. NATS, JetStream, `encoding/json`, package time, the quoting of texts and the
-- soulstream library are not in the repository; what the code asks of them is a parameter.
pub mod Base
pub mod Errors
pub mod Spec
pub mod Validate
pub mod Registry
pub mod Persist
pub mod Metrics
pub mod Dispatch
pub mod Request
pub mod Consumer
pub mod Channels
pub mod Lifecycle
pub mod Options
pub mod Imp
pub mod Contexts
pub mod Schedule
pub mod Soulstream
pub mod Echo
pub mod Tests
