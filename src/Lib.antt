-- ===== src/Lib.antt =====
-- ulog_cpp: a model of the C++ library that reads and writes ULog files, the log format of PX4.
--
-- The program and its parts. A ULog file is a file header, then messages: two bytes of size, one
-- byte of type, and the payload. The header section describes the formats, the parameters and the
-- info of a log; the data section subscribes to formats and carries the data, log lines and
-- dropouts. `Reader` (ulog_cpp/reader.cpp) is handed a file in chunks and calls a
-- `DataHandlerInterface` for each message; the message classes (ulog_cpp/messages.cpp) are
-- constructed from the bytes and serialize themselves; `Writer` (ulog_cpp/writer.cpp) is the
-- handler that serializes, and `SimpleWriter` (ulog_cpp/simple_writer.cpp) checks the use of a
-- writer. `DataContainer` (ulog_cpp/data_container.cpp) is the handler that keeps what a log says.
--
-- The files, and what they model:
--   Prelude, Prelude/: shared names, tests on the native numbers, lists, and the integers.
--   Exception: ulog_cpp/exception.hpp, with a constructor for each text that the code throws, and
--     the standard library's exceptions that reach a caller. `fault` is a read outside of the
--     memory at hand.
--   Memory: reads from and writes to memory, in the order of a little-endian machine.
--   RawMessages: ulog_cpp/raw_messages.hpp.
--   Text/: `find`, `std::stoi` and `std::to_string`, which the code uses of the standard library.
--   Field: class `Field`. Field/RoundTrip and Field/Safety hold its theorems, and so on below.
--   Messages/: the message classes. `parse_x` is a constructor from bytes, `serialize_x` the method
--     `serialize` with the bytes that it gives to the callback, one behind the other.
--   Handler: ulog_cpp/data_handler_interface.hpp. An implementation is a record with its state.
--   Reader/: State has the buffer and the corruption, Header the start of a file, Dispatch a whole
--     message, Machine the loops of `readChunk` and `tryToRecover`. A session is a `Config`: the
--     reader, the handler's state and what is left of the chunk. Frames says what the messages of a
--     stream are, with no reference to the reader.
--   Writer, Writer/: ulog_cpp/writer.cpp. Its output is the bytes so far.
--   SimpleWriter, SimpleWriter/: ulog_cpp/simple_writer.cpp.
--   Formats: `resolveDefinition` of `Field` and `MessageFormat`. The formats are a list by name, which
--     is changed in place; a pointer to a format is its name.
--   DataContainer, DataContainer/: ulog_cpp/data_container.cpp. A map is a list by key.
--   Value, Value/: class `Value`. The iterators are a place in a memory and its end; a value that is
--     read is the bits of a number, several of them, or a text. Value/Cast is `as<T>`, where
--     the machine's signedness of `char` and its floating-point conversions are parameters.
--   Subscription, Subscription/: ulog_cpp/subscription.hpp. The views and the iterators hold what the
--     references of the code lead to.
--   Log, Log/: the calls of a whole log, made on a writer, and on a handler by way of the reader.
--   Tests: the theorems at concrete inputs.
--
-- Bounds and fuel. `readChunk` and `tryToRecover` call each other at their end, so both loops are
-- one machine, and `run` makes as many steps as `steps_for` counts: two for each byte in the buffer
-- and four for each byte of the chunk, and three more. This is enough, since each round takes a byte
-- off the chunk or the buffer, or changes the loop. The loop over the fields of a format has a
-- round per byte of the text. The resolution of formats may call itself as often as each field can
-- be resolved, and the fields of a format be gone through, once more; where an array of negative
-- length moves an offset below 0 the code does not end, and the fuel is used up (Tests/Resolution).
-- Sizes of messages are 16 bits, and are written modulo 2^16 as the code converts them; the
-- comparison with the largest size goes through `int`, as in the code. Sizes of `SimpleWriter` are
-- modulo 2^32.
--
-- Assumed: a little-endian machine, as the code checks; a memory that does not run out; a handler
-- whose `error` and `fileHeader` return, as those of the repository do (the other calls may
-- throw); a `bool` in a file whose byte is 0 or 1, since another byte is no `bool` in C++. An
-- `int` that overflows is not modelled, nor are chunks beyond the range of `int`. A step of an
-- iterator out of its vector is undefined in C++ and is a `fault`. The map of subscriptions by
-- name and instance holds pointers in the code and message ids here; the invariant of
-- DataContainer/Events says that each id is there.
--
-- Not modelled: opening, flushing and closing a file; `as<T>` for a `T` that is no type of a field,
-- and how floating-point numbers are converted; the examples and tests.
pub mod Prelude
pub mod Exception
pub mod Memory
pub mod RawMessages
pub mod Text
pub mod Field
pub mod Messages
pub mod Handler
pub mod Log
pub mod Formats
pub mod Reader
pub mod Writer
pub mod SimpleWriter
pub mod DataContainer
pub mod Subscription
pub mod Value
mod Tests
