-- ===== src/Lib.antt =====
-- The file store: pictures and documents are uploaded through a web form, stored in FastDFS, and
-- listed from redis.
--
-- The program. src/upload.c takes a form's body: `upload_file` finds the file's name and bytes in it,
-- the storage client is run, and `write_redis` stores a value for the file in the list FILE_INFO_LIST
-- and counts it in FILE_HOT_ZSET. src/data_cgi.c takes a query, whose parameters
-- `get_query_string` finds, and answers with the list that `read_redis_to_json` makes from the values,
-- or counts a visit by `increase_file_pv`. All of them reach the server through src/redis_op.c, and
-- note what they do through src/make_log.c.
--
-- Which file models which part:
--   Clib        the functions of the C library that the program calls, on arrays of bytes: what the
--               standard says of them. Exec is a result, an exit, or a fault, where the standard
--               leaves the behaviour undefined: a read or a write outside an array, or NULL used
--   FileInfo    the value's format, as include/redis_keys.h documents it
--   DataUse     src/data_use.c: Fields is `get_value_by_redis`, Replace `str_replace`, IpUrl
--               `get_ip_url`, Listing `read_redis_to_json` and `increase_file_pv`
--   Usefull     src/usefull.c: WriteRedis is `write_redis`, Query `get_query_string` and its callers,
--               Suffix `get_file_suffix`, TrimSpace `trim_space`, Memstr `memstr`, Upload
--               `upload_file`, Storage `get_buf`, `fdfs_client` and `get_url`; System is the interface
--               of the processes, pipes and files that these use
--   RedisOp     src/redis_op.c: Hiredis is the interface of the client library and the server, Keys,
--               Values, Hash and Pipeline the operations, Connect the connections
--   MakeLog     src/make_log.c: the directories, the line and the file of a message
--   Programs    the two main programs: Upload is src/upload.c, DataCgi is src/data_cgi.c, and Together
--               is about requests of both on one server
--   Shelf       the files on the server as the two programs together see them, with what Redis
--               documents of four commands: Writes is about `write_redis` and `increase_file_pv`, Shows
--               and Scores about `read_redis_to_json`, Traffic about sequences of the first two, Listed
--               about what the third prints behind these, Apart about the system beside the server,
--               and Shuffled, Concurrent and Processes about several processes at once
--   RoundTrip   the writer against the reader, and (Sent) what the writer sends
--   Tests       concrete inputs
--
-- State. A `char` array is the list of its bytes, of the length with which it was declared, and a
-- function returns the arrays that it writes to. A pointer into an array is an offset; NULL is
-- `none`. An array of text holds the text, a byte 0, and what was there before. The memory that
-- `malloc` returns is an argument, and so are the environment, the clock and the file system. The
-- server and the library hiredis are the record Hiredis over a state of their own; cJSON is the
-- record CJson. What hiredis documents is named in records of laws, PipelineLaws and ConnectLaws,
-- what Redis documents in ServerLaws and TextLaws, what mkdir, open and write document in MkdirLaws and FileLaws,
-- and what the pipes do in DescriptorLaws. Apart says that the system's calls and the storage's
-- programs do not change the lists and scores of the server, and ReadLaws that LRANGE and ZSCORE do
-- not. Tests shows that all of these can hold. A request of a main program is a record of what the
-- environment, the input and `malloc` hold for it, and the requests come one by one as a list. A
-- `fork` chooses one side, and the model goes on as that process.
--
-- Loops are recursions on the bytes or on the rounds that the source counts. Two have fuel: the
-- digits of a number are printed with the number as fuel, of which each digit takes one, and the
-- loop of `str_replace` runs on one more than the length of the text, since every round passes a key
-- that is not empty. With an empty key and an empty replacement the source's loop does not end, and
-- the fuel runs out.
--
-- Left out: the calls of the log but two, the one with the page of a list and the one with what
-- `get_url` has read, which may hold no byte 0; no other has a text of 4096 bytes while the arrays of
-- the programs hold what they log, messages to the terminal, the text
-- that the main programs print around a page, the release of replies outside the pipelines, what the
-- other process does behind a `fork`, and cJSON, which is another project's library. `int` has 32
-- bits and `long` 64 where text is converted and where the list computes with the query's numbers and
-- the scores: a result outside is a fault. Other lengths are not bounded by 2 ^ 31.
--
-- `strncpy` between parts of one array that overlap is a fault. `trim_space` calls it on a text that
-- begins its array, too, where each byte would be put where it is: that call leaves the text.
mod Base
pub mod Clib
pub mod FileInfo
pub mod RedisOp
pub mod Usefull
pub mod DataUse
pub mod RoundTrip
pub mod MakeLog
pub mod Programs
pub mod Shelf
mod Tests
