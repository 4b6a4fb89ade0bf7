-- ===== src/Lib.antt =====
-- The storage server of uDrive: users, a tree of directories with files, sharing, a trash, searches.
--
-- The program's parts and how they interact. The web server (server/src/web_server.cc) chooses a REST
-- node (server/src/rest) by the URL and the method; the node authenticates the request and calls
-- RequestDispatcher (server/src/request_dispatcher.cc), which checks rights and quota and
-- keeps files on disk (FileHandler, ZipHandler). It keeps everything else through DataHandler
-- (server/src/data_handler.cc), which turns a user, a directory or a file into entries of a
-- key-value store, `user_<id>_email` and so on, and writes them through DbHandler
-- (server/src/db_handler.cc) as one batch.
--
-- The files of this library:
--   Common, Text: Booleans, lists, std::string as a list of bytes; Text/Split is `split_string`,
--     Text/KeyList the lists `;1;2` of ids, Text/Decimal `to_string`, `stoul` and `stoi`.
--   World: what is outside (RocksDB, the file system, a percentage as text) as a record with the
--     documented behaviour of RocksDB as laws; the state that the classes share, and the ways a
--     call ends: `return true` with results (done), `return false` (failed), or not at all
--     (crashed: an exception of `stoul` or of JSON, undefined behaviour, a full stack, a loop that
--     does not end).
--   Db: server/src/db_handler.cc. Db/Memory is a platform in memory, for the examples.
--   Data: server/src/data_handler.cc. Data/Constants is server/src/db_constants.h, Data/Keys the
--     keys, Data/Access the reads, writes and tickets, then Emails, Users, Directories and Files.
--     Data/Stored says what the store holds of a user, a directory or a file.
--   Storage: server/src/file_handler.cc and server/src/zip_handler.cc.
--   Dispatcher: server/src/request_dispatcher.cc. Records are its structs, Sizes quota and sizes,
--     Accounts users and sessions, Listing, Searching and Downloads what is read, Uploads, Sharing
--     and Trash what is changed. Requests, Guards, Owners, Sessions and Quota hold what is
--     shown of them, Frames what each request leaves alone.
--   Rest: Connection is server/src/mg_connection_w.cc, Node server/src/rest/node.cc, Json the texts
--     that the nodes write, Routes `handlerCaller` of server/src/web_server.cc. The nodes of
--     server/src/rest are in Listing, Searching, Users, Trash, Transfers, Directories, Tags, Sharing
--     and Elements: a node is a record of its overrides (`info_node` is InfoNode, `info_get` its
--     `executeGet`). Frames, Guarded, Legible, Authorized, Refused, Sessions, Urls, Downloads,
--     Forbidden, Dispatch, Strangers and Uploads hold what is shown.
--   Util: Util/Hex is server/src/util/bin2hex.cc, Util/Md5 server/src/util/md5.cc.
--   Tests: a small server, and the theorems at it.
--
-- Names are those of the source. `status`, a reference that the calls pass on, is part of the state;
-- a callee that takes it by value is called under `by_value`. Sums of 64 bit wrap, `% 2 ^ 64`.
-- Output to the console is left out. A function that calls itself on the parent or the
-- sub-directories takes the number of calls that still fit on the stack, `stack_depth` of the
-- platform, and crashes at 0: in the source a loop in the tree overflows the stack. `to_string` has
-- a round for each unit of its argument, which is more than it has digits.
--
-- A request is a record of what mongoose and the JSON library give of it, with the clock and the
-- random numbers; what is read through a pointer to a destroyed string is a parameter of it, any text
-- or the end of the program. A node sends a list of parts, and a call that throws or whose behaviour
-- is undefined crashes. The nodes' own `status` is read by the log alone and is left out. `printfData` is called with the text as its
-- format; the model sends the text as it is, which is so where it holds no `%`. MD5 has 64 rounds
-- for the padding, which ends at a multiple of 64 less 8, and one more for the chunks than the
-- message has bytes. The loop over the parts of an upload has one turn more than the first, since
-- each turn reads the same part: `getConnection` gives a copy, and the offset that a read leaves in it
-- is lost.
--
-- Not modelled: the libraries (mongoose, JSON, RocksDB), ListRevisionsNode, which no route leads to,
-- `main`, the threads, the configuration, the log but for what it reads past the end of a list, what
-- a name that is not quoted makes of a command of the shell (a command changes files, but not those
-- of the database), random numbers, the float that the percentage is computed with (a parameter of
-- the platform), and constructors and destructors, which only set pointers.
pub mod Common
pub mod Text
pub mod World
pub mod Db
pub mod Data
pub mod Storage
pub mod Dispatcher
pub mod Rest
pub mod Util
pub mod Tests
