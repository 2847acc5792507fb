-- ===== src/Lib.antt =====
-- A model of the message routing and the binkp mailer sessions of libFTN, and of what they stand on,
-- with its theorems.
--
-- libFTN handles FidoNet mail. Its mailer talks binkp with other nodes: a TCP connection
-- (src/net.c) carries frames (src/binkp.c), frames carry commands or file data
-- (src/binkp/commands.c), and a state machine drives each side of a session
-- (src/binkp/session.c) and checks the password. Options add a CRC for each file
-- (src/binkp/crc.c) and go on with an interrupted one (src/binkp/nr.c). Nodelists carry a CRC-16
-- (src/crc.c). Messages come in packets; the router (src/router.c) decides where each goes, and
-- asks the duplicate check (src/dupechk.c) whether it was seen before. Addresses of nodes
-- (src/ftn.c) stand in all of these.
--
-- The files:
-- Common: shared names, tests on numbers and byte strings, lists, bit operations (Bits, Xor), and
--   the parts of the C library that the sources call (Text: ctype, strchr, strtoul, "%lu",
--   snprintf), in the C locale.
-- Error: ftn_error_t of include/ftn.h. Config: what the other parts read of
--   include/ftn/config.h.
-- Crc: the tables and loops of src/binkp/crc.c (Crc32) and src/crc.c (Crc16); Serial32 and
--   Serial16 state the bit by bit definitions and relate the two.
-- Net: ftn_net_send, ftn_net_recv, ftn_net_send_all, ftn_net_recv_all. The answers of the socket
--   that are still to come are a part of the connection; Stream is what they make together, Delivery what is sent.
-- Trim and Address: src/ftn.c. RoundTrip has an address and its text, Order the comparison.
-- Message: ftn_message_t of include/ftn/packet.h and its functions in src/packet.c. Date has the
--   dates (Date.RoundTrip prints and reads one), Text the text with its control lines: Tokens its
--   lines, Lines, Numbers, Several and Body what each kind of line does, Spaced the body put
--   together, Parts and Front the lines before and behind it, RoundTrip all of them, Controls the
--   control lines, Sample a body for the runs.
-- Packet: packets as files, src/packet.c. Words has the numbers and texts, RoundTrip the file, Whole
--   the packet with its messages.
-- Dupecheck: src/dupechk.c. Normal has the normal form of an id, Refinement the database as a finite
--   map, Database the file, Context ftn_dupecheck_t, whose functions pass on to the database.
-- Router: src/router.c. Router.Rules has the list of rules and its order, Chosen and Invariant which
--   rule is applied, Routing local addresses and duplicates, Validation the check of an address.
-- Binkp.Status and Binkp.Frame: include/ftn/binkp.h and src/binkp.c, one function for each of C.
--   Header has the well-formed frames, RoundTrip and Receive the two ways to read one.
-- Binkp.Command: src/binkp/commands.c. Escape has the names with escapes, RoundTrip the commands
--   in frames, Args the commands about files (Args.Offsets M_GOT, M_GET, M_SKIP; Args.Files M_FILE).
-- Binkp.Session: ftn_binkp_session_t with the sending, receiving and processing of frames;
--   States has its states, Handlers the handlers of the states, ftn_binkp_session_step and
--   ftn_binkp_session_run. Invariant and Steps have what every step keeps, Run the whole run,
--   Password and Gate the password check.
-- Binkp.Auth: src/binkp/auth.c; Password says who is authenticated.
-- Binkp.Plz: src/binkp/plz.c; Frames has a frame compressed and taken apart.
-- Binkp.FileCrc: the context of src/binkp/crc.c; Negotiation has the option, Check a file.
-- Binkp.Resume: src/binkp/nr.c; Offset has the resume offset, Response the text that carries it,
--   Negotiation the option.
-- Each component has a module Tests, with runs on concrete data.
--
-- Conventions. A byte is a number below 256, and a buffer or a C string a list of bytes. Numbers of
-- a fixed width wrap where C wraps. A pointer that may be NULL is an Option; one that the code tests
-- for NULL first is taken as not NULL, and malloc as successful. A function that changes an object
-- takes it and gives the object after the call, with the code it returns. A call that may wait for
-- the peer gives an Option: none is a call that has not returned, because the socket has given no
-- answer yet.
--
-- Fuel. The loops of net.c take the length of the list of answers as fuel, and each round but the
-- last uses up an answer, so they end by none only where the answers are used up. decimal takes a
-- number's size, more than it has digits. ftn_binkp_session_run takes a number of rounds, and
-- out_of_rounds tells that they did not do; how many do is a theorem on the deadline. The loop of
-- ftn_packet_load has one round more than the file has bytes, and uses up two bytes in each. That
-- of ftn_plz_decompress_data doubles a buffer of 8192 bytes at least up to 131068, in five rounds.
--
-- Parameters: compress2 and uncompress of zlib for compression; fnmatch in the router; localtime
-- and mktime for the dates of messages, and the time now.
--
-- Not modelled: logging and tables of texts for it, opening and configuring sockets, failures of
-- malloc and of a write, and the other parts of the library: nodelists, storage, conversion to
-- RFC 822, the flow and control files of the outbound, CRAM, the main programs.
pub mod Common
pub mod Crc
pub mod Error
pub mod Net
pub mod Trim
pub mod Address
pub mod Config
pub mod Message
pub mod Packet
pub mod Dupecheck
pub mod Router
pub mod Binkp
