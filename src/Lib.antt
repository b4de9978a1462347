-- ===== src/Lib.antt =====
-- A verification library for the core and logging components of adaptive-pi.
--
-- The program. platform/ara-core is a header library: error domains and error codes
-- (error_domain.h, error_code.h), AdaptivePi's own domain (adaptive_pi_error_domain.h) and Result
-- (result.h). platform/ara-log builds on it: a Logger has a context and a threshold; an application
-- opens a LogStream on it, inserts values and destroys the stream, which hands the message to
-- Logger::Submit. Submit reads time, process and thread from a MetadataProvider, renders the record
-- into a RecordBuffer (console_record_formatter.cpp) and writes it to a Sink in one call. Log and
-- LogWith (logger.h) do the same for modelled messages, through a MessageWriter and attributes. The
-- registry of loggers (logger_registry.cpp) owns them and answers lookups.
--
-- The files.
--   Prelude: tests and conditionals on the native numbers, lists with memcpy, integers with the
--     truncating division of C++, families that change at one index, decimal printing
--     (std::to_chars, the %0*d of snprintf) and a reader of decimals, and Run, the outcome of a call
--     that may throw or terminate.
--   Core/ErrorDomain, Core/AdaptivePi: error_domain.h, error_code.h and
--     adaptive_pi_error_domain.h. A domain has the address of its object; converters are named, and
--     a parameter says what the program's own converters do.
--   Core/Storage: ResultStorage, two slots of which one is active. emplace fills the spare slot,
--     switches, then clears the old one; the construction of the payload may change the storage,
--     through arguments that refer to what it holds. Core/Transfer: its copies; Core/Moving: its
--     moves, and what they leave of their source.
--   Core/Result and Core/VoidResult: the operations of Result<T, E> and Result<void, E>;
--     Core/Result/Access: what the queries answer; Core/Result/Lifetime: sequences of changes.
--   Log/RecordBuffer: record_buffer.cpp. RecordBuffer/Appending: steps that append to a buffer and
--     report a Bool, chained as by && in the source.
--   Log/Level, Log/Metadata, Log/Sink: log_level.h, metadata_provider.h with
--     linux_metadata_provider.cpp, sink.h with console_sink.cpp. Both interfaces are records of
--     operations over the state W of the world.
--   Log/Timestamp and Log/Console: console_record_formatter.cpp. Log/Timestamp/Fields and
--     Log/Console/Parsing are readers of the documented format, which share nothing with the code
--     that writes it; Timestamp/Utc has the seconds that fields stand for, Console/Calls reads back
--     what a record was made of. Console/Capacity is about the size of records, Console/Lines and
--     Console/Splitting about lines.
--   Log/Logger: the state of a logger, IsEnabled and Submit; Logger/Submission: what Submit does to
--     the world. Logger/Threads: Submit in two moves, with other threads between the reading and the
--     write; Threads/Alone relates them to Submit, Threads/Reaching and Output follow the output,
--     Threads/Telling the calls.
--   Log/Stream: log_stream.h and log_stream.cpp. Stream/Pending is its abstract state: closed,
--     broken or holding a text; the other modules under it relate the code to that state,
--     Stream/Living from the opening to the end.
--   Log/Writer, Log/Attributes, Log/Modelled: message_writer.h, AppendAttribute of logger.cpp, Log
--     and LogWith of logger.h with modelled_message.h and trace_routing.h. Attributes/Reading reads
--     attributes back from what they leave in a record.
--   Log/Registry: logger_registry.cpp. The heap maps addresses to loggers; Registry/Chain is the
--     invariant, a linked list of distinct objects. Find and the destructor walk it on fuel, and
--     more fuel than there are loggers is enough (Finding, Destroying). Registry/Directory is the
--     abstract registry, a quotient of lists of entries; Directory/Requests, Refining and Swapping
--     relate sequences of calls to it.
--   Log/Registry/Threads: Register and Find as threads run them, a move for each access to the list,
--     the heap or the mutex. Threads/Facts is the invariant; Seen, Moves and Keeping: what a move
--     leaves of it; Safety, Lasting, Running and Progress follow it through the states reached;
--     Threads/Alone relates the moves to the sequential operations, Threads/Releasing to the
--     destructor. Threads/History lists their events in the order in which they take effect, which
--     Threads/Linearizing relates to the abstract registry.
--   Log/Facade: WithLevel and the named severities of logger.cpp, ara_log.cpp.
--     Facade/Output, Facade/Printing and Facade/Whole compose the parts, from the registration to
--     the output, and Facade/Sharing and Facade/Transcript for threads that log at the same time.
--   Hello: apps/hello-adaptive/src/main.cpp; Hello/Greeting runs it to its end,
--     Hello/Transcript reads its output.
--   Log/Types: the conditions on types of log_stream.h and modelled_message.h; Types/Overloads and
--     Types/Parameters are about them, Log/Modelled/Compiling about the static assertions of LogWith.
--   Service: apps/platform-test-service/src. Harness: the harnesses of ESBMC, of
--     platform/ara-core/proofs and apps/platform-test-service/proofs, on all their open values.
--   Examples: the theorems at concrete inputs.
--
-- Conventions. A byte is a natural number, a string a list of bytes. A machine integer is an
-- integer of the model with the bounds of its type stated where they matter; std::size_t arithmetic
-- that can wrap is written with its modulus. An exception or a call of std::terminate is an outcome
-- (Run). A noexcept function has no exceptions to throw. What a function changes it returns. Loops
-- are recursions on the list they traverse. The library functions gmtime_r, fwrite, the
-- classification and std::to_chars of floating-point numbers, the kernel's answers, and the answers
-- of new and of the pthread functions are parameters; their assumptions are IsCalendar (fields in
-- the ranges of the C standard), IsUtc (fields of the calendar of UTC), NeverEmpty (std::to_chars
-- writes something), IsTimespec (nanoseconds of one second), Answered (also ids of 64 bits),
-- IsConsole (fwrite succeeds and appends, the kernel prints nothing), Ready (the kernel answers
-- with positive ids and a time that 64 bits hold and that can be shown) and Provides (new gives arrays of the size that was asked for and
-- an address that was free). In Registry/Threads a thread that waits for the mutex makes no move
-- until it is free.
--
-- Not modelled: the unit tests, the build files and scripts, the resolution of overloads by
-- conversions of the language, and the memory model of C++: the moves of threads are interleaved,
-- each on the state that the one before left.
pub mod Prelude
pub mod Core
pub mod Log
pub mod Hello
pub mod Service
pub mod Harness
pub mod Examples
