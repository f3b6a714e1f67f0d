-- ===== src/Lib.antt =====
-- The storage server of a cloud disk: CGI programs in C that keep sessions and ranks in Redis, users
-- and files in MySQL, and file contents in FastDFS.
--
-- Des is the cipher of common/des.c. Des/Tables and Des/Boxes hold its tables, Des/Schedule the key
-- schedule (`deskey`, `cookey`), Des/Block the block function (`scrunch`, `desfunc`, `unscrun`), and
-- Des/Api the calls over whole data: OPENCOMM_DesExpandEncKey and OPENCOMM_DesExpandDecKey are
-- `expand_key`, OPENCOMM_DesEncRaw and OPENCOMM_DesDecRaw are `des_raw`, myic_DESEncrypt and
-- myic_DESDecrypt are `myic_des`, CW_dataPadAdd is `pad_add`. Des/Standard has the S-boxes and the
-- permutation of FIPS 46-3, from which the tables SP1 to SP8 are derived anew, and Des/Cipher has
-- its cipher function, with the expansion E. The width of an `unsigned long` is an argument, as is what the arrays on the stack hold
-- before they are written, since the source copies 128 bytes of a key of 32 longs. Shifts to the left
-- are cut to that width. `malloc` succeeds. The proofs stand in Des/Swaps and Des/Enter (the
-- permutations), Des/Rounds, Des/Keys, Des/Bytes, Des/Inverse (a block) and Des/RoundTrip (whole
-- data).
--
-- Redis is common/redis_op.c. The hiredis library with the server behind it is a parameter, the record
-- `Hiredis` of Redis/Hiredis: the state of the server is passed along, a reply may be NULL, and a read
-- through NULL or outside an array is the outcome `fault`. Redis/Connect, Redis/Keys, Redis/Hash with
-- Redis/Hmset, Redis/Lists, Redis/Strings and Redis/Zset hold one function for each call, under the
-- names of the source; the loops of the four pipelined calls, which are the same, are `pipeline` of
-- Redis/Keys. Arrays of the caller are arguments, and their contents afterwards are results. What a
-- server is taken to answer is the record `Store` of Redis/Store for strings, `HashStore` of
-- Redis/HashStore for hash tables and `Scores` of Redis/Scores for sorted sets; Redis/Memory and
-- Redis/HashMemory fill the first two with servers in memory. The proofs stand in Redis/Pipeline,
-- Redis/Sessions, Redis/Ranges, Redis/HmsetText, Redis/HashTrip and Redis/Scores.
-- `rop_test_reply_type`, which only logs, and the log lines are left out.
--
-- Md5 is common/md5.c: Md5/Transform the block function with the macros of include/md5.h, Md5/Context
-- the context (MD5Init is `init`, MD5Update `update`, MD5Final `final`, MD5ToHexString
-- `md5_to_hex_string`). The stale contents of a context's buffer are an argument. Md5/Rfc is
-- the block function of RFC 1321 written from its text, with the table computed from the series of the
-- sine in units of 2 ^ -256, and Md5/Spec the digest of a whole message with it; Md5/Blocks, Md5/Held
-- and those two have the proofs, and Md5/HexText those on its text. The length of an input is an
-- `unsigned int`: `absorb` is the code for inputs of less than 2 ^ 32 - 64 bytes, for which `i + 64` in
-- the loop does not wrap, and what happens with longer ones is not modelled.
--
-- Cgi is the users and what the handlers share: Cgi/Login handles one request of src_cgi/login_cgi.c
-- and Cgi/Register (`registration`) one of src_cgi/reg_cgi.c, from the parsed body on.
-- `process_result_one` and `execute` of common/deal_mysql.c are in Cgi/Mysql, over the MySQL client
-- library as a parameter, what `process_result_test` and `print_error` print in Cgi/MysqlText, the
-- JSON of `return_json` and `return_status` of common/util_cgi.c in Cgi/JsonText, and
-- `genRandomString` and `check_user` of common/util_cgi.c in Cgi/Token. The numbers of `rand`, the
-- size of a pointer and what memory held before are the record `Ambient`. A login and the later check
-- of its token meet in the Redis server, a registration and the later login in the database.
-- Cgi/Memstr is `memstr` of the same file, by which the upload finds the parts of its body.
-- Cgi/Sessions, Cgi/LoginTrip, Cgi/Registered, Cgi/Guessing and Cgi/FirstPlace have the proofs.
-- Cgi/Body is how the handlers read the body of a request (`receive`), with the three programs that do
-- no more than that (`idle`: dealfile_cgi.c, dealsharefile_cgi.c and sharefiles_cgi.c), and
-- Cgi/LoginLoop the loop of login_cgi.c over its requests (`serve_logins`). Cgi/SessionMap is what
-- that loop amounts to, a map from tokens to users. Cgi/RegisterLoop is the loop of reg_cgi.c
-- (`serve_registrations`), and Cgi/UserSet a set of names, with the record `Users` of what the
-- database is taken to answer, which Cgi/UserMemory fills. Cgi/Refined, Cgi/Joins, Cgi/Joined and
-- Cgi/Idle have the proofs.
--
-- Util is the rest of common/util_cgi.c: Util/Names `get_extension` and `get_file_suffix`, Util/Query
-- `query_parse_key_value`, Util/Trim `trim_space`, Util/Replace `str_replace`, Util/FileMd5
-- `Compute_file_md5` over what the reads give, and Util/UserFile `insert_user_file_list_table`. Arrays
-- that a string is written to are given by their size. Util/Strstr is `strstr` of the C library.
--
-- Upload is src_cgi/upload_cgi.c: Upload/Body the search for the parts of the body, Upload/Store what
-- is written to the disk and the database, and Upload/Handler the whole of a request (`upload`). The
-- disk, its calls, and the child that runs fdfs_upload_file are the record `System`. Upload/Form,
-- Upload/Stored and Upload/Refused have the proofs. Upload/Disk says what the calls of a disk are
-- documented to do (`Files`, which Upload/DiskMemory fills), and what an upload leaves on it;
-- Upload/Session puts the login and the upload together.
--
-- Md5Cgi is src_cgi/md5_cgi.c: Md5Cgi/Blocks the two blocks that live from one request to the next,
-- with `clear` for MEMSET_ARRAY_ZERO on a pointer and `unquote` for the `strncpy` of a text in quotes,
-- Md5Cgi/Handler one request (`handle`), and Md5Cgi/Loop the loop, as a relation (`Step`, `Reach`) and
-- as a function (`serve`). Md5Cgi/Clean, Md5Cgi/Invariant, Md5Cgi/Shared and Md5Cgi/Stale have the
-- proofs.
--
-- MyFiles is src_cgi/myfiles_cgi.c, with the printed array as a list of objects, and MyFiles/Listed
-- its proofs. Config/Read is common/cfg.c, with files and cJSON as the record `Source`; Config/Start
-- is `mysql_initialise` and `redis_initialise` of src_cgi/init.c with `msql_conn` of
-- common/deal_mysql.c, and Config/Verify `verify_token` of common/util_cgi.c, with its proof in
-- Config/Verified. LogFile is common/make_log.c, over the record `Dirs`, with a proof in
-- LogFile/Month. Base64/Codec is common/base64.c, and Base64/RoundTrip its proof.
--
-- Prelude has what they share: lists and Boolean tests over the native numbers, integers, C strings
-- and arrays, outcomes, and the operations on the bits of a word.
--
-- Every loop is structural, so that no fuel is chosen; `%d` prints at most ten digits, which a 32-bit
-- number has. Memory that `malloc` is asked for is there, but for the body of a request. Not modelled
-- are the lines of the log, a `read` that never comes back, the copy of cJSON, whose calls are
-- parameters, and the sample programs of test/.
pub mod Prelude
pub mod Base64
pub mod Cgi
pub mod Config
pub mod Des
pub mod LogFile
pub mod Md5
pub mod Md5Cgi
pub mod MyFiles
pub mod Redis
pub mod Upload
pub mod Util
