-- ===== src/Lib.antt =====
-- lnsocket is a C library that speaks the transport protocol of the Lightning network (BOLT 8) to a
-- node: it performs the handshake, encrypts and decrypts messages, and builds the few messages of
-- BOLT 1 that a connection needs. A socket (lnsocket_internal.h) owns an arena with a buffer for
-- messages and one for error texts, a connection, and the transport state.
--
-- Memory models the memory behind all pointers as a function from addresses to bytes. Cursor is
-- cursor.h and the cursor functions of endian.h, Bigsize is bigsize.c, Varint is varint.c, Errors
-- is error.c. Crypto is crypto.c, Message the message builders of lnsocket.c, Net its `read_all`
-- and the calls of `read` and `write`, State the structs of lnsocket_internal.h and handshake.h,
-- Receive `lnsocket_read` and `lnsocket_recv`, Send `lnsocket_encrypt`, `lnsocket_write` and
-- `lnsocket_send`, Hex its hexadecimal node ids, Session the creation of a socket, its keys, and
-- the exchange of init and ping messages, Features its feature bits, Tor its handshake with a
-- proxy, and Connect `lnsocket_connect_with` and `lnsocket_act_one` of lnsocket_wasm.c. Commando is
-- commando.c, and Rpc is lnrpc.c, the command that calls a node. Handshake is handshake.c, with a
-- responder written from BOLT 8 to hold it against (Handshake/Responder). Functions bear the names
-- that they have in C, and an out parameter or an object that is changed is a result. Io is the
-- notation for operations on a socket that stop at the first failure, and Prelude has the lists,
-- bytes and Boolean tests that the others share.
--
-- Two files have notions for operations on a socket: Bounds, of those that write only in the
-- message buffer and the error log, and Noting, of those that note one error where they fail. Life
-- is a socket whose user calls the library in any order, from the creation of the socket on, and
-- stores what it likes in between, but not in the struct; the calls that build their message in a
-- buffer on the stack are not among the calls. Conversation puts two sockets at the two ends of a
-- connection, as a step relation: each end may change its memory, write a message, or read one when
-- the bytes of the other have come.
--
-- libsodium, libsecp256k1, the CCAN hashes, and the text that `vsprintf` makes are parameters
-- (Primitives) with the laws that the code relies on. Of an encryption whose output overlaps its
-- input in part, which libsodium says nothing of and `lnsocket_send` brings about, only the length
-- is known. The text of an error is a parameter by its format string, whatever the arguments of the
-- call. The environment gives what each call of `read` and `write` does (Net): a read may return
-- fewer bytes than wanted, be interrupted, fail, or meet the end of the stream, a write may be
-- short or fail. What the calls that open a connection answer is given as a whole (System in
-- Connect), and the answers of `select` in lnrpc.c as a list, one for each turn of its loop. Tests
-- has toy primitives that meet the laws, and concrete runs.
--
-- Every loop is a recursion on a list or a number, but that of `print_error_backtrace`: it runs on
-- fuel, one unit for each byte of the log, and each of its rounds takes a byte at least. The loop
-- of lnrpc.c runs on the list of answers of `select`. The loops of `push_varint` and `pull_varint`
-- of cursor.h (Cursor/Leb) have five rounds: the second counts to them itself, and the first ends
-- within them, since an `int` that is not negative has 31 bits and a round takes seven.
--
-- Address arithmetic does not wrap, and lengths of type `int` are not negative. The struct of a
-- socket is a record beside the memory, of which the bytes at its place in the arena say nothing.
-- What a text does that overruns the static buffer of 512 bytes in error.c is a parameter; those of
-- the library, which hold lengths and the text of `strerror`, are taken to fit it. The assertions
-- of crypto.c that the laws of the primitives make true are left out. Not modelled: the vendored
-- hashes and bech32, configurator.c, the bindings for other languages, the standard error, the
-- freeing of a socket, the environment variables of lnrpc.c, and test.c.
pub mod Prelude
pub mod Memory
pub mod Cursor
pub mod Bigsize
pub mod Varint
pub mod Errors
pub mod Message
pub mod Primitives
pub mod Crypto
pub mod Net
pub mod State
pub mod Io
pub mod Commando
pub mod Hex
pub mod Features
pub mod Handshake
pub mod Bounds
pub mod Noting
pub mod Life
pub mod Receive
pub mod Send
pub mod Session
pub mod Tor
pub mod Connect
pub mod Rpc
pub mod Conversation
pub mod Tests
