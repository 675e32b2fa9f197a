-- ===== src/Lib.antt =====
-- A program that compares ways of communication between processes (include/, src/): an object is
-- serialized behind a header into a buffer of 528 bytes, and a handler moves the buffer's bytes
-- to another process.
--
-- Object models include/object and src/object: DataType the enumeration of data_type.hpp,
-- DataHeader, Ping, JavaSymbol and BinaryData the classes of those names, each with `serialize`
-- and `deserialize`. Memory is a list of numbers below 256; a pointer into the buffer is the
-- buffer and an offset, or the rest of the buffer from the pointer on. A child Wire relates each
-- class to an independent encoding. Print has the operators that print them, and `print_array` of
-- src/utility.cpp. Text has what the program uses of std::to_string, std::stoul, std::stoull,
-- std::stoll, the stream manipulators and std::getline.
--
-- Communication models include/handler/communication_handler.hpp, communication_error.hpp and
-- src/utility.cpp: the errors, the variant of all objects, `deserialize_data_object`, and what a
-- `read` can end with. Communication.Frame is the code that the `write` and `read` functions of
-- all handlers repeat: `pack` builds header and body in the buffer, `read_header` and `read_body`
-- take them apart.
--
-- Handler models the classes of include/handler and src/handler, one module each: Fifo,
-- MessageQueue, DatagramSocket, StreamSocket, SharedMemory, SharedFile and DBus. `open`, `close`,
-- `accept`, `await_data`, `has_data`, `write` and `read` are functions (`open` is `open_handler`)
-- from the handler's members and the answers of the system to the result and the new members;
-- those that open and close also return the list of the system's calls that they make
-- (Handler.Os). Handler.Slots is the ring of 64 slots over the memory or the file,
-- Handler.Datagrams the end of `read` where messages arrive whole, Handler.Sockets the address of
-- both sockets. Handler.Link states what a writing and a reading handler promise together: to be
-- a queue of messages. In DBus the answers of libdbus are arguments, and the calls that take or
-- give back a connection or a message are returned; DBus.Transfer has the bus as parameters,
-- `deliver`, from the message that was built to what `read` sees of it, and `reaches`, from a
-- destination and a name to whether the message goes there, with their laws as named hypotheses;
-- what is sent is on the bus until `has_data` lets the reader's connection receive it.
-- DatagramSocket.Transfer keeps what is sent to an address only if it comes to the address of the
-- reader (`comes_to` of Handler.Sockets); DatagramSocket.Opened gets both addresses from `open`.
-- Handler.Sequence puts operations one after the other. SharedMemory.Steps takes `write`, `read`
-- and `await_data` apart into the calls on semaphores and the parts of a `memcpy`, as a relation
-- between the states of two processes that run at the same time; Whole puts the steps of a
-- `write` in a row, and Interleaving has the invariant of all orders. Fifo.Stream,
-- SharedMemory.Queue and the Transfer modules are such pairs, with what the system keeps between
-- them as part of their state: `pipe_read`, `mq_receive` and `recvfrom` are the documented
-- behaviour of those calls, and `file_write` is that of a file stream's `seekp` and `write`.
--
-- Integers: a C++ integer of w bits is its bit pattern, a number below 2 ^ w, and conversions are
-- written out as remainders (Prelude.Int); `size_t` subtraction wraps where the code lets it.
-- Only `digits` of Text runs on fuel, 64, which is enough for numbers of 64 bits. The loops of
-- StreamSocket's `read` recurse on the events that `recv` finds, and end as `waiting` where the
-- events end before the packet does. `overrun` is the outcome of a read that would use memory
-- behind the end of a buffer or a text, `aborted` that of a failed `assert`, which no build type
-- turns off, or of an exception that nothing catches.
--
-- Benchmark models src/benchmark and include/benchmark: Client the loop of `run_client` over a
-- Link, and the dummy data; Latency, Throughput, Execution and RealWorld the functions
-- `run_server` of those classes, Measure and Replay the `run_client` of ExecutionTimeBenchmark
-- and RealWorldBenchmark. A server recurses on the answers of `read`, each behind an `await_data`
-- that has succeeded where one is made; `wait` and `reached` of Benchmark are the loop that waits
-- for it, from the answers of `await_data` to the turns that the server comes to, and in
-- Throughput a turn has the number of times that it failed. Session runs a client and then a
-- server over a Link. Statistics is stats.hpp on whole numbers, in units of 1/4 and 1/8, which
-- `double` holds exactly.
--
-- Program models src/main.cpp: `create_handler` with the constructors of the handlers;
-- Program.Trace the loop of `run_real_world` that reads a recorded trace; Program.Normal the
-- loops `run_client` and `run_server` of the kind `normal`; Program.Main the functions
-- `run_latency`, `run_throughput`, `run_execution_time` and `run_real_world`, and `main`, from
-- the arguments and the answers of the handler to the exit code, the report and the calls of
-- `open` and `close`. The destructors of the handlers, which close what is still open, come after
-- that. Program.Descriptors opens and closes whatever handler `create_handler` makes, and follows
-- descriptors and connections to the bus. Program.Start goes from there to a pair of SharedMemory
-- handlers that hold no message: which semaphores both sides have, and with which values, it
-- finds from the calls that `open` makes.
--
-- Tests has the runs at concrete inputs.
--
-- Not modelled: the average, the variance and the standard deviation of
-- include/benchmark/stats.hpp and the throughput and the times of the benchmarks' getters, which
-- are floating point; `get_timestamp`, the system's calls and libdbus, whose answers are inputs;
-- the messages about the program's progress; script and testdata.
pub mod Prelude
pub mod Text
pub mod Object
pub mod Communication
pub mod Handler
pub mod Benchmark
pub mod Program
pub mod Tests
