-- ===== src/Lib.antt =====
-- Models of the napsteresque server and client library (C++), and theorems about them.
--
-- The program is a server of a file sharing network. A client's connection is a stream of packets
-- (client.cc over socket.cc); a packet is a command with a code and arguments (command.cc, and
-- functions.cc for its text form). The server accepts connections in one thread and looks at them in
-- another (server.cc). It indexes words in ternary trees (ternary.hh), and keeps for every user a list of
-- the names that the user ignores (ignore.cc). Users meet in channels (channel.cc).
--
-- The files and the code that they model:
--   Base           what all files share: lists over the native numbers, Boolean tests, integers, and words
--                  as bytes in memory (swap is ntohl and ntohll)
--   Address        address.hh, address.cc: the constructors (of_text, of_sockaddr), the texts (to_text,
--                  ip_str with its rotating buffer), the comparisons, dotcount
--   Args           functions.cc: get_next_argument in its three forms, with strtoul
--   Command        command.hh, command.cc: _grow and _flush (flush), _push (Arg), with the text form
--                  (text_all) and the F2 form (encode_all); Command.Unpack: _unshift for each type, and the
--                  macro UNPACK_COMMAND (unpack), and vunpack; the constructors and operator= (new,
--                  from_text, copy, assign)
--   Cert           filecert.hh, filecert.cc: Cert.File is FileCert and Cert.Song is SongCert, each with
--                  copyToBytes, getFromBytes, createSignature and validSignature
--   Cid            cidclient.hh, cidclient.cc: CidClient with Reconnect, SetServer and Close; Cid.Packet: the
--                  headers and QuerySend (query_send); Cid.Response: both forms of ResponseReceive
--                  (response_receive, blob_receive)
--   Channel        channel.cc, and User::write of user.cc, which throws: find, insert, remove, clear, broadcast;
--                  Channel.Handlers and Channel.Talk: the server's handlers under `#ifdef WORKS` (obey)
--   File           file.hh, file.cc: File with Parse (parse), GetSeparator, tokenize up to the lexicon, info_str
--   Hex            functions.cc: hex_to_bin and bin_to_hex
--   Strsep         functions.cc: my_strsep
--   Client         client.cc, and Socket::recv and Socket::send of a Command: Client::read (read, fill),
--                  Client::write and Client::flush (write, flush, send_packet); Client.Whole: the whole of
--                  Client, with the ages, its constructors, open, close and the operators
--   Data           data.hh: Data with its operators, and the windows of socket.cc on a command
--                  (recv_window, send_window)
--   Notify         notify.hh, notify.cc, which stand under `#if 0`: add, remove and the destructor;
--                  Notify.Replies: notify, which throws at the first user, and the server's handlers of the codes
--                  for notifies
--   Password       functions.cc: crypt_password
--   PollSet        pollset.hh: watch, poll, ready
--   Scheduler      event.cc, scheduler.cc: Event and Scheduler with add, remove, clear and run
--   Server         server.cc: add_connection, check_incoming, check_clients (with remove_connection), and
--                  the push of the accept thread (step)
--   Security       security.hh, security.cc: lock_string, unlock_string, the limits and the user, on a kernel
--   Search         search.hh, search.cc: Go, jmerge and Compare, which stand under `#if 0`
--   Share          share.cc, which stands under `#if 0`: AddSong, AddSong2, RemoveSong, AddSongCert and
--                  AddSongCert2 (Share.Handlers), with the texts that they give to AddFile
--   Socket         socket.hh, socket.cc: open, operator=, bind, connect, listen, accept and close on the
--                  descriptor and the flags; Socket.Options: the options, on a kernel
--   Time           time.hh: Time with its integer operations
--   Transfer       transfer.cc, which stands under `#if 0`: the six handlers, of a delay (delay_download), a
--                  request (download_request), a refusal (refuse), an acceptance (download_accepted), an end
--                  (download_complete) and a transfer behind a firewall (firewall_transfer)
--   Ternary        ternary.hh: find, insert, erase; its pointers into the tree are places (Place)
--   Ignore         ignore.hh, ignore.cc: IgnoreList with insert, erase, find, exists, clear and update
-- The other modules below these hold proofs, and the modules Examples tests and instances.
--
-- How they interact: Client takes the Command of Command and sends its head and data, and opens and
-- closes the socket of Socket; Server takes the read and flush of Client for its connections; Command
-- reads text by Args. Cid reads the certificates of Cert and writes their MD5 by Hex over a socket of
-- Socket; File is unpacked from a Command; Notify reads names by Args and compares them as Ignore does;
-- Transfer unpacks a Command; Share reads the certificates of Cert. Scheduler compares the clock by Time,
-- Socket has the addresses of Address, and Address prints and reads a port by the functions of Command and Args.
--
-- How code is represented:
--   - A `char *` is the list of the characters before its NUL, a `char` of a key a byte, compared as a
--     signed char. A U16 is a number below 2^16 (`% u16_mod` where the code lets it wrap), an I32 its bit
--     pattern, `unsigned long` has 32 bits as on the machines of the program.
--   - The memory of a packet is a list of bytes; those that the allocator does not set are the values of
--     a parameter `fresh`. NULL is `none`. A write
--     of a Command beyond what it allocated is a fault; the size of an argument is counted by a U16.
--   - The calls of the system are parameters. recv and send consume a list of answers, each of which
--     grants some bytes or says EAGAIN or an error; behind its end they say EAGAIN. What poll says of a
--     client is a `Turn`. Each operation of a socket has the answers of its calls as arguments, and the
--     clock is a sequence of readings.
--   - What C leaves undefined and the code does all the same, to write and read through a pointer that
--     nothing set and to delete it (Share), has an arbitrary outcome, a parameter. The dates of a
--     certificate are compared in the order of the network there, as the code compares them.
--   - Exceptions are values: `none`, `thrown`, or the field `threw`.
--   - The words of a `Time` are integers without a bound; where the code's would overflow, C leaves what
--     happens undefined. The bytes of a certificate are those of a little-endian machine that aligns a
--     U64 to 4 bytes; HMAC is a parameter.
--   - A pointer into the buffer of CidClient is its distance from the first byte; a read or a write beyond
--     the buffer is the value `overrun`. The memory of a key of NotifyManager is a number.
--   - Four bounds on a recursion are not in the code. `emit` has ten rounds for the decimal digits of a
--     number below 2^32, which suffice since 10^10 is larger, and five for a port. The loop of dotcount
--     has a round for each character and one more. The loop of jmerge has a round for each element and
--     each set, a round for each set, and one more (rounds_of). The loop over the names of a command
--     (arguments) has a round for each character and two more. That those of jmerge and of the names suffice
--     is a result.
--
-- Not modelled: the database (db.cc), the protection of the stack (security.cc), threads and mutexes, and
-- the mains, which are calls of libraries or of the system; code that is under `#if 0` at this commit (the
-- files of share.cc, auth.cc, info.cc, elite.cc, Search::Load and the server's handlers in search.cc, and
-- scheduled.cc); the conversions of a Time
-- to double, which have no exact model here.
pub mod Address
pub mod Args
pub mod Base
pub mod Cert
pub mod Channel
pub mod Cid
pub mod Client
pub mod Command
pub mod Data
pub mod File
pub mod Hex
pub mod Ignore
pub mod Notify
pub mod Password
pub mod PollSet
pub mod Scheduler
pub mod Search
pub mod Security
pub mod Server
pub mod Share
pub mod Socket
pub mod Strsep
pub mod Ternary
pub mod Time
pub mod Transfer
