-- ===== src/Lib.antt =====
-- cheaproute, a router in user space: its streams, its JSON reader and printer, its hex text, its
-- reader and printer of packets, and its monitor of network interfaces with the listener that sets
-- them up, modelled as functions and proved correct.
--
-- The parts of the program and where they are modelled. Paths are from the repository's root.
--
-- * src/base/common.cc, `FormatHex` and `ParseHex`: Hex.antt. A text is the list of its bytes; the
--   end of a C string is the end of the list or a zero byte. Hex/RoundTrip.antt,
--   Hex/Digits.antt and Hex/Accepts.antt hold the proofs.
-- * src/base/stream.h and stream.cc: Stream.antt holds the two abstract streams as records of
--   operations over a state, with the contracts `Appends` and `Delivers` that their users rely on.
--   Stream/Output.antt is `BufferedOutputStream`, Stream/Input.antt `BufferedInputStream`, both
--   over any stream that keeps its contract; Stream/Memory.antt the memory streams;
--   Stream/File.antt the file streams against the answers of the kernel. A loop on fuel has the
--   length of its block, since each round moves a byte at least.
-- * src/base/json_reader.h and json_reader.cc: JsonReader.antt, with the tokens and the state in
--   JsonReader/State.antt, strings and keywords in JsonReader/Text.antt, numbers in
--   JsonReader/Number.antt, and `AppendCharacterAsUtf8` in Utf8.antt. The stream is the list of the
--   bytes still to be read, which the theorems of Stream/Input/Chars.antt justify. The loop of
--   `ReadString` has one round more fuel than the stream has bytes. The value of a floating-point
--   number is left out: whether `strtod` reports ERANGE is a parameter, and `float_text` keeps the
--   text that it is given.
-- * src/base/json_writer.h and json_writer.cc: JsonWriter.antt and JsonWriter/Text.antt. The stream
--   is the list of the bytes written; a failed `assert` is `none`. JsonRoundTrip.antt and the files
--   below it relate the printer to the reader: JsonRoundTrip/Calls.antt has the calls of the
--   printer as a run, what a reader sees of it, and the loop over `Next`.
-- * src/net/json_packet.cc, `SerializePacket` and the header writers: Packet/Serialize.antt and the
--   files below it, with the tables in Packet/Names.antt and the fields of the headers in
--   Packet/Fields.antt, on a little-endian machine. They are sequences of the printer's calls
--   (Packet/Writing.antt); Packet/Landing.antt and Packet/Moves.antt say what such a sequence does
--   to the printer's modes, Packet/Traced.antt that it is a run of the printer whose text can be
--   read. The loop over the TCP options has as much fuel as there are option bytes.
-- * src/net/json_packet.cc, `DeserializePacket` and the functions that it calls:
--   Packet/Deserialize.antt and the files below it. Parsing.antt has the monad of the reader, the
--   destination and `out_err`; Tables.antt the lookup tables; Expect.antt the functions that expect
--   a token, a name or a value; Headers.antt, Tcp.antt and Whole.antt the parts of a packet;
--   Completion.antt the lengths and the checksums. `inet_pton` and the ERANGE of `strtod` are
--   parameters (`Platform`). Each round of a loop reads a token, which takes a byte, and the fuel
--   is one more than the bytes that are left. A `ParseHex` outside its table is `undefined`. The
--   other files hold the proofs.
-- * Both ways through src/net/json_packet.cc, for UDP packets: Packet/RoundTrip.antt. Says.antt has
--   the calls that a program of the printer makes; HeaderCalls.antt, DataCalls.antt and
--   PacketCalls.antt those of `SerializePacket`. Yields.antt has a reader that yields such calls,
--   Reading.antt what the functions that expect something give on it, Flags.antt,
--   HeaderReading.antt, Lines.antt, DataReading.antt and Udp.antt the parts of `DeserializePacket`;
--   Blanked.antt a packet without lengths and checksums, Document.antt the whole, Again.antt a
--   second time, Verified.antt the UDP checksum.
-- * src/net/json_packet.cc, `Add` and `ComputeIpChecksum`: Packet/Checksum.antt.
-- * src/base/broadcaster.h, `Broadcaster` and the handles of its listeners: Broadcaster.antt. A
--   listener is its address; `Broadcast` is a definition of Programs/Running.antt.
-- * src/net/ip_address.h and ip_address.cc, the addresses and their order: IpAddress.antt, their
--   texts: IpAddress/Text.antt. An address is its bytes; a shift that is undefined is `none`.
-- * src/net/netlink_monitor.h and netlink_monitor.cc: Netlink.antt and the files below it.
--   Interfaces.antt has the table of interfaces and the handling of links, Addresses.antt the
--   addresses, Sets.antt the `std::set`s, Monitor.antt the requests and `HandleRead`. What is
--   broadcast is a list of events, and what the socket took a list of messages; `none` is an abort,
--   a failed assert, or a name that does not end in its attribute. A datagram is the list of its
--   messages, whose numbers are below 2 ^ 31, with their attributes. Mirror.antt, Replay.antt,
--   Told.antt, Mirrored.antt, WellFormed.antt, Created.antt, Announced.antt,
--   Listened.antt and Requests.antt hold the proofs.
-- * src/net/netlink_util.h, `NetlinkMessageBuilder`: Netlink/Builder.antt, on a little-endian
--   machine; src/net/netlink.cc: Netlink/Device.antt, over a socket that is a parameter;
--   Netlink/Layout.antt.
-- * src/net/interface_activator.h, `InterfaceActivator`: Netlink/Activator.antt and
--   Netlink/Activated.antt, on the events of the monitor.
--
-- * src/net/tun_interface.h and tun_interface.cc, `SendPacket`, `HandleRead` and the name in the
--   `ifreq`: Programs/Tun.antt, against the answers of write(2) and read(2).
-- * src/main.cc, the router: Programs/Router.antt, the listeners of crIN and what is printed for
--   the events of the monitor; Programs/Flushed.antt, Programs/Forwarded.antt and
--   Programs/Logged.antt. The log goes through the buffer of 4096 bytes, as Stream/Output/Blocks.antt
--   says, and `FileOutputStream::Write`, against the answers of write(2) on STDOUT_FILENO; as many
--   rounds as bytes cut it into blocks. What `printf` is given is kept
--   apart: where standard output puts it between the blocks is left open.
--   src/playback_tun.cc: Programs/Playback.antt, whose loop over the log has one round more fuel
--   than the log has bytes left; Programs/Replayed.antt.
-- * src/base/event_loop.cc, the flags of `IoTask`, and src/base/file_descriptor.cc: EventLoop.antt.
--
-- Prelude.antt and the files below it hold what the components share: the tests on numbers, lists,
-- integers and tables. Tests.antt and the files below it run the definitions and apply the theorems
-- to concrete inputs.
--
-- Not modelled: `Ip6Address::ToString`, a call of `inet_ntop`; and what only calls the kernel or wraps
-- the C library (the loop and the timers of libev, the opening and reading of the netlink sockets, the
-- opening of the tun device, the splitting of a datagram by the macros of the kernel's headers in
-- `NetlinkReceiver`, the abort and print helpers, `scoped_ptr`).
pub mod Prelude
pub mod Hex
pub mod Stream
pub mod Utf8
pub mod JsonReader
pub mod JsonWriter
pub mod JsonRoundTrip
pub mod Packet
pub mod Programs
pub mod IpAddress
pub mod Netlink
pub mod Broadcaster
pub mod EventLoop
mod Tests
