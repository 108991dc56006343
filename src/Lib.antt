-- ===== src/Lib.antt =====
-- Verification of the arnovich core: the ticker server (include/core_srv, src/lib/core_srv), the
-- variant and matrix types (include/core_types, src/lib/core_types), the debugging aids
-- (src/lib/core_debug) and the bindings to Python (src/lib/core_python, src/pylib).
--
-- The ticker server keeps, for each named ticker, its ticks (the newest first) and its subscribers. A
-- client names a ticker by its id, pushes data to it, pulls the newest tick, the newest tick up to a time
-- or the next one after its last pull, and subscribes to pushes. Client and server talk over a stream
-- socket; the server runs one thread for each connection, and all threads share one store.
--
-- Files and the code they are about:
--   Base, Base/*             lists, tests, signed integers, the string functions of the C library;
--                            `fault` is what C leaves undefined: NULL, freed memory, access out of
--                            bounds, signed overflow
--   Srv/Types                core_srv_types.h, core_srv_data.h: error codes, ticks, tickers, the store
--   Srv/Data                 core_srv_data.c: one function for each srv_ function of the store
--   Srv/Data/Valid           well-formed stores, and that the operations keep them so
--   Srv/Data/Lookup          srv_get_ticker and srv_add_ticker
--   Srv/Data/Timeline, Push, ByDatetime, Update    the order of the ticks, the push and the three pulls
--   Srv/Data/Subscribers     srv_tick_subscribe and srv_tick_unsubscribe
--   Srv/Data/Board           the store as a board of topics with listeners in no order, and that
--                            core_srv_data.c refines it
--   Srv/Data/Free            what faults, and which ids are refused
--   Srv/Wire                 the bytes that values of C are on LINUX64, and the codes of the enumerations
--   Srv/Io                   programs that read and write connections and use the shared store
--   Srv/Thread, Srv/Server   core_srv_server.c: srv_run_server_thread, one function for each command;
--                            the variables of the thread are the record Thread
--   Srv/Client               core_srv_client.c: one function for each srv_client_ function
--   Srv/Dialogue, and below  a client and a server thread that run against each other, command by
--                            command; Confluence: their steps commute, so that schedules do not matter
--   Types/Value, Types/Heap  the structs of core_types_variant.h and core_types_matrix.h, and the heap
--                            their pointers point to
--   Types/Double             the operations on `double`, which are a parameter
--   Types/Matrix             core_types_matrix.c and the accessors of core_types_matrix.h
--   Types/Variant, Types/Operators    core_types_variant.c
--   Types/Printing           variant_to_string, variant_to_string_ and matrix_to_string with their static
--                            buffers; Bounds, Rendering, Nested: what they write, and where past them
--   Types/Wrapper            core_types_variant.hpp: the class variant; below it, who owns which
--                            counter and block, and runs of programs that use the class
--   Srv/Listener             core_srv_server.c: srv_run_server, and main of src/bin/core_srv_run.c;
--                            Threads: the variable that its loop shares with the threads it starts
--   Debug, Debug/Groups      core_debug.c and the macro _DEBUG: which messages are printed
--   Debug/Output             core_debug.c: the file that messages go to, and the function debug
--   Debug/Python             the functions of src/pylib/core_main.c that set level and groups
--   Python                   src/lib/core_python/core_python.c: objects of Python to variants and
--                            matrices; Objects: the other way; RoundTrip: there and back; Rows,
--                            Table: lists; Wrap, Handling: core_python_wrap.c and the errors that it
--                            passes on
--   Pylib                    src/pylib/core_srv.c: the methods of Connection and Tick; RoundTrip,
--                            Overread: what they give over the client and the server
--
-- Conventions. A function of C that can fault returns an Outcome; what it writes through pointers is
-- part of its result. Server and client are values of Io, which say what is read, written and asked of
-- the store; an execution is a sequence of the steps of Srv/Dialogue. There a write sends all its bytes
-- and a read waits for all that it asks for; the answers of Io itself leave shorter results open.
-- A size_t is a number below 2 ^ 64, an int is its value, a C string a list of bytes that ends with 0.
-- In the server's thread the number of chunks and its product with 8000 are ints: the number wraps when
-- it is converted, and the product faults from 2 ^ 31 on, so that the dialogues that move data are for
-- less than 2147488000 bytes. The number of tickers is an int too, and its increment faults past 2 ^ 31 - 1.
--
-- Bounds and fuel. Loops are recursions on what they count: the chunks of 8000 bytes, the list of
-- ticks, the rows of a matrix. Only three numbers bound something else: the rounds of
-- srv_run_server_thread, which has an endless loop; the depth of variant_equal, of variant_to_string
-- and of the conversions between Python and variants, which recur through matrices of matrices or
-- lists of lists and fault past the depth as the stack of a machine would; and the variable `fill`,
-- which is the byte that fresh memory holds. The dialogues are about one round, and the theorems on
-- variant_equal hold at every depth.
--
-- Not modelled: the mutexes and the interleaving of several clients (a step on the store is one
-- operation of it); reads and writes that are cut short; the text of debugging messages; the macros of
-- include/core_python/core_python_wrap.h and the tables of the Python modules, which define types for
-- the interpreter; the parts for Windows. Allocation is taken to succeed.
pub mod Base
pub mod Types
pub mod Srv
pub mod Debug
pub mod Pylib
pub mod Python
