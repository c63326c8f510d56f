-- ===== src/Lib.antt =====
-- The programs of a networking course: a BGP router, a learning bridge, a TCP sender and receiver, and
-- a web crawler. Each directory of the repository is one program; they share no code.
--
-- The router (3700Router/networks):
--   Router/Address   ipaddress.py: QuadrupleOctet, IPAddress and SubnetMask, a 32-bit number each
--   Router/Packet    packet.py, and ConnectionType of utils.py: the messages, == and the order of origins
--   Router/State     router.py: the attributes of a Router, __init__, send, _select_src_ip
--   Router/Inform    request_handler.py, _inform_neighbors: who hears of a route
--   Router/Update    request_handler.py, UpdatePacketHandler
--   Router/Withdraw  request_handler.py, WithdrawPacketHandler
--   Router/Forward   request_handler.py, DataPacketHandler and Handler.matched_subnet
--   Router/Dump      request_handler.py, DumpPacketHandler: aggregation and the answer to a dump
--   Router/Value     the values that JSON has and that the fields of a message have; Serializable of utils.py
--   Router/Reflect   utils.py: Deserializable over descriptions of classes; packet.py, the field lists
--   Router/Run       router.py, _assign_handler, _select_handlers, and run from its start
-- A received packet is given to its handler, which reads and changes the router's state and sends
-- packets. A handler is a function in the monad of Prelude/Exec: from a router to a result (a value, or
-- the exception that ends the program) and the router after it, whose field `sent` lists what went out.
--
-- The bridge (3700Bridge/networks):
--   Bridge/Bpdu        packet.py: BPDUs with their order, and packets
--   Bridge/Port        port.py: the BPDUs that a port has seen, its status, and sending
--   Bridge/State       bridge.py, __init__ and send_bpdus; launch.py, launch_bridge
--   Bridge/Spanning    request_handler.py, SpanningTreeRequest, and the loop of launch over a batch
--   Bridge/Root        bridge.py, calculated_root_changed
--   Bridge/Forwarding  bridge.py, calculate_forwarding_table; request_handler.py, ForwardingRequest
--   Bridge/Launch      bridge.py, launch and one round of its loop
--   Bridge/Value       the values that JSON has and that fields have; Serializable of utils.py
--   Bridge/Reflect     utils.py: Deserializable and IncrementallyDeserialize
--   Bridge/Accept      packet.py, the field lists; port.py, read_packet; bridge.py, accept_requests
-- A round takes the BPDUs that have arrived to their ports, makes the forwarding table anew and holds an
-- election if a port has changed, forwards the frames, and announces the root. Ports are objects that the
-- bridge, its table and the requests share: a reference to one is its place in the list of ports. The
-- clock is an argument, in milliseconds, and all readings of it within one call are the same.
--
-- The transport protocol (3700TCP/networks):
--   Tcp/Packet    packet.py: headers, packets, flags, and their bytes as struct packs them
--   Tcp/Checksum  packet.py, the checksum of a packet; launch_receiver.py, _check_for_malformation
--   Tcp/Receiver  launch_receiver.py: the window of the receiver, acks, and what it prints; in
--                 Tcp/Receiver/Run the reading of datagrams and the loop of run
--   Tcp/Transfer  the two programs together, over a network that loses nothing, in lock step: the sender
--                 waits for the answer to each piece before it reads the next
--   Tcp/Sender    launch_sender.py: the branches of the loop of run, resending, and run
-- The hash (blake2b of hashlib) is an argument; the theorems that need it ask for digests of 16 bytes.
--
-- The crawler (3700Crawler/networks):
--   Crawler/Socket    the TLS socket: the pieces in which bytes come, and the bytes that are sent
--   Crawler/Response  http_response.py: the parser of the header and the reader of the content
--   Crawler/Request   crawler.py: the texts of the GET and POST requests, and the form body
--   Crawler/Pattern   constants.py: the regular expressions, each as a search between two texts
--   Crawler/Session   crawler.py: the attributes of a Crawler, get, post, login, extract_response_data, run
--
-- Representation: a Python int that is not negative is ℕ; >> and << are / and * by powers of two; a dict
-- is a list of pairs in insertion order (Prelude/Dict); a str is a list of character codes
-- (Prelude/Text and Prelude/Strings, with UTF-8); struct.pack checks its bounds and raises. A dataclass
-- that is read from JSON or written to it is an object with its field names; the serialization goes
-- through a description of the class, the list of its fields with their types. A member of an
-- enumeration of texts is its text. There are no floats, and a keyword argument named cls, at which the
-- call of deserialize is itself an exception, is not treated apart.
--
-- Fuel: two loops run on fuel. The while loop of _aggregate_msg_group has n * n + n + 1 rounds for n
-- messages: a round that merges makes the list shorter, and between two merges there are at most as many
-- rounds as messages. The loop of the header parser has one round more than the text has characters: a
-- round that does not end the loop passes a line ending. The theorems about both say that they return.
-- The loops of the receiver and of the sender run over what comes, and end with it.
--
-- Not modelled: printing of logs, sockets, TLS, select, json.loads and json.dumps, argparse, the scripts
-- that start the programs, and the parsing of the router's connections by a regular expression.
pub mod Prelude
pub mod Router
pub mod Bridge
pub mod Crawler
pub mod Tcp
