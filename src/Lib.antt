-- ===== src/Lib.antt =====
-- Lotos++, a talker server over telnet, modelled from its C++ sources (paths are from the
-- repository's root).
--
-- Network/Connection (src/Network/Connection.cpp): a connection's state and every method that changes
-- it. Steps is the relation of all that can happen to it, Lifecycle the invariant's proofs by method,
-- Silence what a connection does once it is not open.
-- Network/NetworkMessage (src/Network/NetworkMessage.cpp): the message buffer. Log is the abstract view
-- as a bounded list of bytes, RoundTrip what is read back.
-- Network/OutputMessagePool (src/Network/OutputMessage.cpp): the pool of messages. Send is sendAll,
-- Release the way of a message out of the pool and back.
-- Network/Telnet (src/Network/Protocol.cpp, Protocols/Telnet.cpp, src/Common/Talker.cpp, Thing.cpp): the
-- life of a session's protocol and user, in a store of objects. Sessions is what the exceptions of uRead
-- lead to, Reads joins them to uRead, Release is what becomes of a user whose protocol is released, and
-- Alive follows histories of sessions.
-- Network/Notices (src/Network/Protocol.cpp, Protocols/Telnet.cpp): what a protocol sends by itself.
-- Sending is what its messages hold, Buffer the buffer that it keeps.
-- Network/ServicePort and Network/ServiceManager (src/Network): a port with its acceptors, where Restart
-- is its new start after an error, and the map of ports, where Ports is what services stand on them.
-- Common/Task and Common/Scheduler (src/Common/Task.h, Scheduler.cpp): timed events, which the thread
-- hands to the dispatcher. Invariant covers the interface, Drain what the thread runs.
-- Common/Dispatcher (src/Common/Dispatcher.cpp): the thread that runs the tasks. Rounds is its loop,
-- Shutdown the flush. Common/AutoId (src/Common/AutoID.h): the ids of creatures.
-- Common/Enum (src/Common/enum.h): the enumerations. Lookups is what a filled one finds, Flags the sets
-- of flags.
-- Common/User (src/Common/User.cpp): Login is the login with IOUser::load, and Accounts what it lets
-- through; the hash function is an argument. Telopt is the telnet option parser: Rounds and Plain tell
-- when its loop ends. Input is uRead with parseLine and the commands of src/Commands: Kept, Pieces, Keys,
-- Line, Secret and Ends tell what reading bytes leaves alone, how input splits, what a byte and a line
-- do, what is echoed, and when it ends. Print is the text that uPrintf sends.
-- Database/Insert (src/Database/Insert.cpp): the buffered INSERT; Rows tells what it executes.
-- Database/MySql (src/Database/Drivers/MySQL.cpp, Transaction.h): the driver with its result sets, and the
-- transactions on it; Sessions is what they leave open, Numbers the getters of numbers. Common/IoUser
-- (src/Common/IOUser.cpp) saves and creates users with them, as Saved tells, and Decimal is how their
-- numbers come back; the loading is part of the login.
-- Log/Severity (src/Log/severity_t.cpp): the levels, and Names how they are read.
-- Security/Blowfish (src/Security/Blowfish.cpp): the bcrypt hash. Encoding is its base 64, Cipher the
-- block cipher, Crypt the key schedule and BF_crypt.
-- Strings/Splitline and Strings/Misc (src/Strings): the command line splitter and the text filters.
-- Base: shared tests, lists, bytes, maps as association lists and int counters.
--
-- The tables of digits of pi that the hash starts from are arguments.
-- Texts are lists of bytes, and a plain char is signed. Words of the machine are numbers, and their
-- wrap-around is written out. Methods under a lock are one step. Sockets, the io_service, the clock and
-- what the database holds are arguments.
-- Functions of boost on text and of the configuration are arguments too.
-- Fuel: the loop of Splitline's parse has one more than the length of the line, since each round ends
-- behind its begin. AutoId's search has one for each id, and Dispatcher's flush one more than the tasks
-- that wait. The loop of the option parser, which need not end, takes its fuel as an argument; the loop
-- of uRead has one turn more than the bytes of the message and of the buffer.
--
-- Not modelled: the exception tracer, the sinks of the log, the configuration, the connection manager, the set-up of
-- the database and the start of the program, which are glue to the system and to libraries.
mod Base
pub mod Common
pub mod Database
pub mod Log
pub mod Network
pub mod Security
pub mod Strings
