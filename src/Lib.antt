-- ===== src/Lib.antt =====
-- Face_perception: a small HTTP server that keeps the attendance of the users who sign in and out
-- by requests such as GET /show?name=zhoufei&id=130612.
--
-- The program. server/server_http.cpp accepts connections and starts a thread for each; the class
-- `server_http` of server/server_http.h does the rest. `Accept` reads the first line of a request
-- (`get_line`), takes it apart (`get_path_method_query`), and either sends a file (`exec_get`) or
-- records a visit (`send_vector`) and runs a program for the answer (`exec_cgi`). The roster of
-- users is the member `v` of the one object `server_class`. server/server.h with server/server.cpp is
-- another server, which waits with epoll and starts a thread for an event. cgi_bin/show.cpp is the
-- program that answers a visit; mysql/mysql.h keeps visits in a database, which
-- cgi_bin/data_base_show.cpp shows; client/ has a client that sends lines.
--
-- The files.
--   Common, Outcome: shared names, integers, and the outcomes of C++ code. A fault (an access
--     outside an array, a null pointer, an overflow of `int`, a failed assertion, `exit`) ends the
--     run; `spins` is a loop that has used up the rounds that it was given.
--   Memory: arrays of bytes and the functions of the C library on them. An array is its list of
--     bytes; a pointer into it is the rest of the list, so that every read and write is checked.
--   Attendance: `user_node` (Node), `calculat_work_time` (WorkTime), `int_to_string` and
--     `get_total_string` (Report), `get_string` (Query), and `find_id` and `send_vector` (Roster).
--     Below Roster stand the roster as a map from users to records (Lookup, Find, Visits), its
--     invariant (Invariant), histories of calls (History), the time worked that they add up to
--     (Hours), the calls that return (Total), and the roster without the order of its records
--     (Ledger). Show has the table that `show` writes.
--   Threads: the calls of `send_vector` by several threads. Places has the places in the code,
--     Vector what the threads share and the iterators of `v`, Actions the steps, and Steps the
--     mutex, the steps of the whole and the states that can be reached. Mutex has who holds the
--     mutex, Alone a thread that runs by itself and threads one after another, Users what
--     every interleaving keeps, Ends that every interleaving comes to an end, Races interleavings
--     with a wrong result, Known the interleavings of threads that add no record, and Served the
--     threads that the connections of `main` ask for.
--   Http: `get_line` (Line), `get_comm` and `get_path_method_query` (Request), the connection and
--     the operating system (World), `exec_get` (Files), `exec_cgi` (Cgi) and the descriptors of its
--     pipes (Pipes), `exec_post` and `Accept` (Accept), and `get_sock` and `main` (Main). Below
--     Main, Keeps has the steps of a connection that leave the roster alone, and Calls the visits
--     that requests ask for.
--   Net: the calls of the socket interface at the start of both servers.
--   Epoll: the other server, server/server.h and server/server.cpp: `get_line` (Line),
--     `get_method_path_url` (Request), `exec_get` and `accept_request` (Connection), `addfd`,
--     `epoll_et` and `epoll_lt` (Events), the branch of `epoll_et` without DEBUG (Drain), and
--     `get_sock` and `main` (Main).
--   Programs: cgi_bin/show.cpp (Show), which the server starts for a visit; Show/Started has the
--     program in the environment that the server makes.
--   Database: mysql/mysql.h, the members and the connection (Library), `insert` (Insert),
--     `show_table` (Table) and the destructor (Lifetime), mysql/mysql.cpp (Trial), and
--     cgi_bin/data_base_show.cpp (Page).
--   Client: `get_str` of client/client_http.h (Input) and client/client_http.cpp (Session); Plain has
--     client/client.h and client/client.cpp, whose text is the same.
--   Console: `print_log`, `show_resource` and the lines of `get_sock`.
--   Strings: test.cpp.
--   Tests: runs at concrete inputs, and the theorems at concrete inputs.
--
-- How the model reads the code. A loop whose end depends on the connection takes fuel, a number of
-- rounds; the theorems say how many are enough, or that none are. `calculat_work_time` computes its
-- own fuel, which is proved enough. `sec` is an integer that must fit an `int`; `data`, a double
-- that is only increased by 1, is a natural number. A pointer has four bytes, as in the binaries of
-- the repository, since `accept_request` casts a pointer to `int`, and so a `long` has four bytes
-- too: `atoi` stays at the ends of `int`. The connection of server_http is the list of what `recv`
-- meets, a byte or an error; at its end the peer has closed it. The epoll server has such a list for
-- each descriptor: a chunk, nothing yet (EAGAIN), or an error or the end.
--
-- The threads. A thread is the place in `send_vector` where it is, with its variables. A round of a
-- loop, a statement on a record, the body of a critical section, `pthread_mutex_lock` and
-- `pthread_mutex_unlock` are one step each, and the steps of the threads are interleaved in any
-- order; what a processor makes of unlocked accesses at the same moment is not modelled. A loop
-- needs no fuel there, since a round leads to the next place: a round of the loop of
-- `calculat_work_time` (carry_next) reads and writes the shared record in one step, and other
-- threads come between the rounds. Since the statements of one round are not taken apart, `min` and
-- `hour` cannot go below 0, as they might if two departures of one user met inside a round. The
-- vector doubles its array when it is full, as libstdc++ does, and an iterator into an array that
-- has been freed faults. Elsewhere the calls of `send_vector`, and the threads of `main`, stand one
-- after another.
--
-- Parameters. The operating system (`stat`, `fopen`, `fork` and the programs that `execl` starts) is
-- the record `Os`, which says for each program, from its path, environment and input, whether it
-- writes an output and ends (ends), ends while the server still writes to it (breaks), or leaves the
-- server waiting for ever (hangs), and the same for a child that dies before it starts a program
-- (dies); `localtime`, `mktime` and `strftime` are the record `Calendar`; the sockets at the start
-- are the record `Sockets`; the flags of descriptors and the creation of threads are the record
-- `System`; the reports of `epoll_wait` are an argument, of which `IsReport` is what its
-- documentation says: only descriptors that have been added, and each at most once; the client
-- library of the database is the record `Library`; what the calls of `connect` give the client is a
-- function of the address. Where a theorem needs that `mktime` undoes `localtime` it says so. The
-- functions of <string.h>, `sprintf` with %s and %d, `atoi`, `fgets`, `getenv` and `difftime` are
-- modelled; where the text of an `insert` is read back, it is read as MySQL reads literals in single
-- quotes, with doubled quotes and backslashes.
--
-- Not modelled. Lines for the console in the middle of an operation, except where they are the
-- program's answer; `waitpid`, and the descriptors of other threads that a child inherits; the heap,
-- and with it the node that `send_vector` does not delete on a departure; what `mysql_init` and
-- `mysql_close` do; the interleaving of the threads of the epoll server and of those that send
-- files, which keep nothing in memory that they share; mysql/mysql_lib, a copy of a client library.
mod Common
pub mod Outcome
pub mod Memory
pub mod Net
pub mod Attendance
pub mod Threads
pub mod Http
pub mod Programs
pub mod Epoll
pub mod Database
pub mod Client
pub mod Console
pub mod Strings
mod Tests
