-- ===== src/Lib.antt =====
-- A model of yafc, a client for FTP written in C, and what holds of it.
--
-- Text is a list of bytes (Base), a buffer its string before the terminator or, where the bytes
-- behind it count, all its bytes; a read or write outside is a result of its own. Numbers are those
-- of `Prim.Native.Nat`.
--
--   Base        what all share; also xstrdup and xstrndup of src/libmhe/xmalloc.c, and the functions
--               of the C library that the sources call
--   Strq        src/libmhe/strq.c. Rfc1738: encode_rfc1738, decode_rfc1738, encode_url_directory.
--               Quote: dequote_filename, unquote, backslash_quote, double_quote, single_quote,
--               quote_word_break_chars, quote_filename behind its tilde expansion (quote_expanded).
--               Scan: strqnchr, strqchr, strqsep, and the loop that its callers make (split_all).
--               Text: strip_blanks, fix_unprintable, unquote_escapes, str2bool, char_is_quoted.
--               Path: stripslash, base_name_ptr, base_dir_xptr, path_dos2unix, collapse_one,
--               path_collapse, tilde_expand_home, path_absolute
--   ShortPath   src/libmhe/shortpath.c
--   Args        src/libmhe/args.c: the vectors of arguments that split_args makes from a command
--               line by strqnchr and strqsep, and every operation on them
--   LinkList    src/libmhe/linklist.c: list_search, list_equal and list_sort on the data of the items; Nodes:
--               list_new, list_additem, list_removeitem, list_delitem and list_clear on a heap of nodes
--   ModeChange  src/utils/modechange.c: mode_parse (Parse), mode_compile (Compile), mode_adjust
--               (Adjust), on modes as sets of bits (Mode)
--   Rfile       src/ftp/rfile.c. Perm: str2mode_t, and perm2string of src/ftp/ftp.c. File: the record
--               `rfile`, its copy, its predicates, rfile_fake, rfile_getmode. Eplf, Unix, Dos and Mlsd: the
--               parsers of listings, with rfile_parse_time (Dates). Choice: rfile_parse. Colors: src/ftp/lscolors.c
--   Time        isLeapYear and gmt_mktime of src/ftp/ftp.c; Time.Calendar is the calendar by steps of
--               a second
--   Reply       ftp_gets and ftp_read_reply of src/ftp/ftp.c on the fields of `Ftp` that they use
--               (Conn); the server is the list of bytes that it sends before it closes
--   Url         src/ftp/url.c and listify_string of src/utils.c; proxy_type of src/ftp/ftp.c. Parse:
--               url_parse, in which every scan that leads outside of the string is a crash
--   Session     the state `Ftp` (Session) around the connection of Reply, and ftp_cmd, of src/ftp/ftp.c.
--               Marks: src/ftp/cache.c. Directories: ftp_getcurdir, ftp_chdir, ftp_cdup. Commands:
--               ftp_mkdir to ftp_rename, and ftp_type of src/ftp/ftpsend.c. Paths: ftp_path_part_of
--               and ftp_mkpath. Credentials and Login: get_username, get_password, ftp_login. Passive: ftp_pasv and
--               the predicates on addresses of src/ftp/ftpsend.c. Operations:
--               any sequence of the commands on directories and files, ftp_mkpath, ftp_type, ftp_pasv and
--               the flush of the cache, without a login. A command writes to the connection, ftp_read_reply reads the answer,
--               and what the command marks is flushed from the cache by ftp_cache_flush
--   Tests       samples
--
-- Loops with a bound of their own are recursion on the string or the count. The others run on
-- fuel: split_all on the length of the string and one (each token takes a byte), compile_from on
-- the length of the mode (each clause takes three bytes), remove_empty_from on the count (each
-- round deletes or passes an item), read_lines on the unread bytes and one (each line takes one),
-- collapse_all on the length of the path (each round shortens it), sort_rounds on the square of the
-- length and one (each round but the last lowers the number of pairs out of order), clear_rounds on
-- the number of items (each round takes one out).
--
-- Left out: memory that cannot be had, the alarms and traces of the connection, the Kerberos
-- replies, the system calls, and the parts of the program that are not named above:
-- transfers, the terminal. Sessions over SSH are left out.
-- `getpwnam` and one's own entry in the user database are parameters, and so are the colours of
-- files, the text of a time, the clock and `mktime`, base 64, `fnmatch`, the error flag of a stream, and, since it is
-- not modelled, `ftp_reopen` for `ftp_cmd`.
pub mod Base
pub mod Strq
pub mod ShortPath
pub mod Args
pub mod LinkList
pub mod Rfile
pub mod Time
pub mod ModeChange
pub mod Reply
pub mod Url
pub mod Session
pub mod Tests
