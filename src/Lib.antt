-- ===== src/Lib.antt =====
-- The C modules of Prosody: util-src/ has one file for each module `util.<name>` that the Lua code
-- of the server calls. Such a file is a set of functions that take their arguments from Lua and push
-- their results; those with a state keep it in a userdata that every method gets. The modules do not
-- call each other: Lua code joins them (net/server_epoll.lua waits with util.poll, reads into
-- util.ringbuffer, and so on), so each is modelled by itself, over the helpers of Base.
--
-- Files:
--   Base             what the modules share: tests, arrays as lists over the native numbers, the
--                    integer types of an LP64 target (Base/Word), signed integers (Base/Int), and
--                    what a C function gives back to Lua (Base/Lua): `ret`, a Lua error (`raise`), or
--                    a step that C leaves undefined (`fault`).
--   Ring             util-src/ringbuffer.c: `Ring` is the struct, and new, write, read, discard and
--                    the sizes are rb_new, rb_write, rb_read, rb_discard, rb_length, rb_size and
--                    rb_free. Ring/Search has find, rb_find and rb_readuntil; Ring/Splice has
--                    calc_splice_positions, wrap_pos, rb_sub and rb_byte. Ring/Queue is the queue of
--                    bytes that the ring stands for; Ring/Run is about sequences of calls.
--   Base64           util-src/encodings.c, the part on base64: encode and decode are Lbase64_encode
--                    and Lbase64_decode, with a helper for each loop and switch.
--   Utf8             util-src/encodings.c, the part on UTF-8: utf8_decode, check_utf8, utf8_valid and
--                    utf8_length are the functions of these names. Utf8/Scalar is the encoding that
--                    RFC 3629 describes; Utf8/Loop, Utf8/Fields, Utf8/Decode and Utf8/Encode follow
--                    the decoder byte by byte.
--   Poll             util-src/poll.c. Each child is one of the three backends that the build chooses
--                    from, with new, add, set_events, del, push_event and wait for Lnew, Ladd, Lset,
--                    Ldel, Lpushevent and Lwait: Poll/Array (USE_POLL), Poll/Epoll (USE_EPOLL) and
--                    Poll/Select (USE_SELECT).
--   Strbitop         util-src/strbitop.c: strop_and, strop_or, strop_xor and strop_common_prefix_bits,
--                    against binary digits (Base/Bits).
--   Table            util-src/table.c: pack and move are Lpack and Lmove.
--   Signal           util-src/signal.c. Signal/Hook has handle and sighook, cut into the steps
--                    between which a signal can arrive (run_frame has those of handle, and handle
--                    a call that no other signal interrupts), in a program with one Lua thread,
--                    Lsig; Signal/Handlers has l_signal, l_raise, l_kill and the table of names;
--                    Signal/Fd has the objects of l_signalfd, over
--                    signalfd(2) and over pipes.
--   Hashes           util-src/hashes.c: evp_hash, evp_hmac, evp_pbkdf2 and evp_hkdf are Levp_hash and
--                    so on, lhash and lhmac the functions that name a digest, to_hex is toHex and
--                    hash_equals Lhash_equals.
--   Net              util-src/net.c: local_addresses, pton and ntop are lc_local_addresses, lc_pton
--                    and lc_ntop.
--   Crand            util-src/crand.c: lrandom is Lrandom, over getrandom(2), arc4random_buf or
--                    OpenSSL.
--   Pposix           util-src/pposix.c, as built for Linux, by subject: Pposix/Append has
--                    lc_atomic_append and lc_remove_blocks, Pposix/Syslog the functions lc_syslog_*,
--                    Pposix/Limits setrlimit and getrlimit, Pposix/Ids setuid, setgid and initgroups,
--                    Pposix/Umask umask, Pposix/Processes daemonize with all the processes that it
--                    makes, and Pposix/Files mkdir, pipe, fdopen, stdio_fclose, setenv and isatty.
--   Crypto           util-src/crypto.c: Crypto/Cipher has Levp_encrypt and Levp_decrypt, Crypto/Sign
--                    base_evp_sign and base_evp_verify with the functions that name an algorithm,
--                    Crypto/Keys the functions that make, read and write keys, Crypto/Contexts
--                    Lpkey_meth_derive and Limport_public_ec_raw, Crypto/Ecdsa the two functions on
--                    DER signatures, and Crypto/Evp pkey_from_arg and push_pkey with the functions of
--                    OpenSSL that these parts share.
--   Prep             util-src/encodings.c, the part on stringprep and IDNA: Prep/Icu and Prep/Libidn
--                    have the functions over each of the two libraries that the build chooses from;
--                    the second uses check_utf8 of Utf8.
--
-- Each function takes the state and returns it with its results. Arithmetic on `size_t` is modulo
-- 2 ^ 64, and conversions between the integer types are written out. An array of C is a list, and
-- an access out of its range is a `fault` unless the code keeps inside.
--
-- Bounds and fuel: the search of the ring buffer takes fuel, one for each place that it tries, as
-- its C loop need not end; the check of UTF-8 takes one for each byte, as each round reads one or
-- more; the loop over getrandom(2) takes one for each byte asked for, as each call gives one or
-- more; every other loop is structural. The sizes MAX_WATCHED, MAX_EVENTS and FD_SETSIZE, the system
-- calls of util.poll, util.signal, util.net, util.crand and util.pposix, the functions of OpenSSL,
-- ICU and libidn, and the memory of a new userdata are parameters. The masks of poll(2) and epoll(7)
-- have the bits that the code names, and `htonl` is that of a target that stores the lowest byte
-- first.
--
-- Not modelled: the Lua stack and its limits, the memory that Lua allocates, the checks of argument
-- types by luaL_check* (arguments have their types here), __tostring methods, which print a
-- pointer, and the functions luaopen_*, which register the others; of util.pposix getpid, getuid,
-- getgid, uname and meminfo, which hand on what one call gives; the collector of Lua, which
-- releases the objects that managed_pointer.h gives it; util.struct, which is a copy of another
-- library, and util.time, util.windows and util.compat, which hand on single calls. A timeout is
-- only known to be below, equal to or above 0.
pub mod Base
pub mod Ring
pub mod Base64
pub mod Utf8
pub mod Strbitop
pub mod Table
pub mod Poll
pub mod Signal
pub mod Hashes
pub mod Net
pub mod Crand
pub mod Pposix
pub mod Crypto
pub mod Prep
