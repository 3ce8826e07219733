-- ===== src/Lib.antt =====
-- Verification library of SeNaviCommon, the common library of a navigation system: time stamps,
-- the binary serialization of messages, the message types, the two exchanges over shared memory
-- that carry them, the missions that an issuer gives to an executor, the queue of callbacks, the
-- timers that put callbacks into it, the condition that threads wait for, the events of messages,
-- the files of configuration, angles, the conversions to the linear math, the console, and the
-- start of an application.
--
-- Files and code (paths from the repository's root):
--   Common           names and lemmas that the other modules share; `Common.Int` has the machine
--                    integers: signed numbers, and casts that keep their wrap-around;
--                    `Common.Double` has the operations of `double` and their laws
--   Time             Source/Time/Time.{h,cpp}, Duration.{h,cpp} and Implement: `Time` and `Duration`
--                    with the normalizations (`normalizeSecNSec`, `normalizeSecNSecUnsigned`,
--                    `normalizeSecNSecSigned`); `Time.Stamp` has the operators of `TimeBase`,
--                    `Time.Span` those of `DurationBase`; `Time.Cycle` has `Rate::sleep` of
--                    Rate.cpp. A throw is a value of `Result`. `Time.Clock` has the clock of
--                    Time.cpp with the loops of `waitForValid`, `Time::sleepUntil` and
--                    `Duration::sleep`, `Time.Print` the printing, `Time.Seconds` the
--                    conversions from and to `double`, `Time.Utils` the delays of Utils.h and the
--                    text of the local time.
--   Serialization    Source/Serialization: `Stream` with `advance`, the serializers of scalars,
--                    strings, times, vectors and arrays, `all_in_one` for
--                    DECLARE_ALLINONE_SERIALIZER, and `serializeMessage`, `serializeServiceResponse`
--                    and `deserializeMessage` in `Serialization.Message`
--   DataType         Source/DataSet/DataType and Source/Service/ServiceType: the messages that have
--                    a serializer, a record and a serializer each; `DataType.Kinds` has them as
--                    one family, `DataType.TraitTable` the traits in their headers and
--                    `DataType.Traits` those of Source/Common/MessageTraits.h;
--                    `DataType.Plain` has the messages without a serializer
--   Transport        Source/DataSet and Source/Service: `publish` and the pass of the subscriber's
--                    loop, `call` and the pass of the server's loop, over the shared operation
--                    record and the region of the message
--   Mission          Source/Mission: the mission object, `setGoal` and `action` of the issuer, the
--                    pass of the executor's loop, `done`, `abort` and `cancel`; `Mission.Attach`
--                    has `obtainObject`
--   Callbacks        Source/Callbacks: `CallbackQueue` and what one thread has taken from it, with
--                    `addCallback`, `removeByID`, `callOne` and `callAvailable`
--   Timer            Source/Timer: `TimerManager` with `add`, `remove`, `schedule` and `setPeriod`;
--                    `Timer.Thread` has the callbacks and the pass of the timer thread,
--                    `Timer.Handle` the `Timer` that a user has; `Timer.Queueing` and
--                    `Timer.Stopping` are about the manager and the callback queue together
--   Config           Source/ConfigFile: the strings, the map of values and the reading of a file;
--                    `Config.AutoVal` and `Config.Assignment` have the conversions
--   Condition        Source/Thread/Condition.h: `set` and `wait`; `Condition.Threads` has the steps of
--                    several threads at one condition, `Condition.Waking` which of them are woken
--   MessageEvent     Source/Common/MessageEvent.h: the event of a message, which is copied for those that
--                    may change it, over a heap of messages; `MessageEvent.Adapter` has what a
--                    callback gets of it (Source/Common/ParameterAdapter.h)
--   Parameter        Source/Parameter/Parameter.cpp: the loading of a file and the lookups, over the XML
--                    parser as a record of operations
--   Angles           Source/Geometry/Angles.h: angles within a turn, and distances with limits; `Angles.Reach`
--                    has the turns to the limits, `Angles.Choice` the distance that is chosen
--   TransformTypes   Source/Transform/DataTypes.h: messages to the types of the linear math and back
--   Application      Source/Application/Application.h: the name of the program, and `initialize`
--   Console          Source/Console/Console.h: the lines of the log and their buffer, and `redirect`
--
-- How they fit together: a stream is a state (the bytes, the pointer, the end), and code on it is an
-- action that returns a result or the exception. A serializer is sound for an encoding of values as
-- bytes (`IsSound`) if it writes the encoding, reads it back, throws where either does not fit, and
-- announces its length. The statements on messages and on the exchanges take any sound serializer,
-- and each combinator comes with a lemma on the soundness of what it makes.
--
-- Bounds: a `uint32_t` length wraps around in the definitions, and the theorems ask that a
-- message fits. `uint64_t` and `int64_t` numbers wrap around too, and so does the `int` mission id,
-- which is incremented. `atoi` of a number that an `int` cannot hold is none. The loops are structural
-- recursions: over the elements of a container, over the tries that a bounded wait has left, and
-- over the waits that a loop makes. Some run on fuel: `callAvailable`, one for each call, since a
-- callback may add others; the sleeping loops, one for each turn, since what ends them comes from
-- outside; `delay`, one for each second; and the digits of a number, which has less of them than
-- its value and one.
--
-- Parameters of the model: the bytes that a new array or region holds (only its size is asked
-- for), what the other side does while a wait has freed the lock, the XML parser, whether a file
-- can be read, how floating-point numbers are written and read, what creates the copy of a
-- message, what a callback returns and does to the queue, the readings of the clock, the answers
-- of the system to an application, the operations of `double` (their laws are hypotheses, and
-- whole degrees satisfy them), and the linear math library with its accessors.
--
-- Not modelled: how floating-point numbers are computed (a floating field is its bit pattern),
-- what the operating system does in a sleep, threads and locks as such, the making of shared
-- memory objects, the exception classes, and the thread of an application. The XML parser and the
-- linear math are copies of other projects.
pub mod Common
pub mod Time
pub mod Serialization
pub mod DataType
pub mod Transport
pub mod Mission
pub mod Callbacks
pub mod Config
pub mod Timer
pub mod Condition
pub mod MessageEvent
pub mod Parameter
pub mod Angles
pub mod Application
pub mod TransformTypes
pub mod Console
