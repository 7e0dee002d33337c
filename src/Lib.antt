-- ===== src/Lib.antt =====
-- GeuReflector: a reflector for SvxLink nodes whose talk groups are carried between reflectors over
-- trunk links.
--
-- The reflector holds which client is in which talk group and who talks there (the talk group
-- handler), and one link for each peer reflector. A link hears of local talkers from the reflector
-- and writes to its peer; it hears the peer's messages, sets the trunk talkers of the handler, and
-- asks the reflector to pass them on to other links, satellites and a twin. Prefix lists of decimal
-- digits say which link carries a talk group, and filters say which talk groups a link never carries.
--
-- TgHandler models src/svxlink/reflector/TGHandler.{h,cpp}. A pointer to a talk group is its key in
-- `id_map`, so following one whose entry was deleted is `none`; client pointers are numbers; times
-- are microseconds. Operations take the state and give the next one; the signals they emit are the
-- entries of `log`. switchTo is switch_to, setTalkerForTG is set_talker_for_tg, and so on.
--
-- TgFilter models src/svxlink/reflector/TgFilter.h: parse, matches and toString on texts as lists of
-- bytes, with std::stoul and the truncation to 32 bits written out.
--
-- Trunk models src/svxlink/reflector/TrunkLink.{h,cpp} for a link with one peer host, and the parts
-- of Reflector.{h,cpp} that route between links. Link has the members of the class, World is a link
-- with the handler; what a link writes, and what it asks of the reflector, are the entries of `out`.
-- Frames are taken as what they unpack to, which Wire says of their bytes. Prefixes, Ident, State, Send, Connect, Local, Relay, Peer,
-- Interest, Heartbeat and Frames hold the code; the other files hold what is proved.
--
-- ProtoVer models src/svxlink/reflector/ProtoVer.h: versions as pairs of numbers, and their ranges.
--
-- Framing models the receiving side of src/async/core/AsyncFramedTcpConnection.{h,cpp}: the loop of
-- onDataReceived runs on fuel, twice the number of bytes and two more, which is enough since each
-- round takes bytes or ends a frame. receive_chunks has the calls of onDataReceived as bytes come in,
-- with the bytes that AsyncTcpConnection.cpp keeps from one call to the next.
--
-- Wire models src/async/core/AsyncMsg.h and the messages between peers of
-- src/svxlink/reflector/ReflectorMsg.h: what a packer promises is an interface with its laws, which
-- numbers, texts, vectors and messages fill. Frames joins it to Trunk: a frame's bytes as the
-- message that the link handles.
--
-- Server models the trunk server of src/svxlink/reflector/Reflector.{h,cpp}: connections that wait
-- for their hello (trunkClientConnected, trunkClientDisconnected, trunkPendingFrameReceived,
-- trunkPendingTimeout), up to acceptInboundConnection of the link that the hello names. A link is
-- its place in m_trunk_links, and connections and timers are numbers.
--
-- Paired models the same class for a link with several hosts: the places of m_ob_cons and m_ib_cons
-- with their states, sendMsg with its sticky place (send_msg_paired), the handlers of connections
-- and frames, and the heartbeat. What does not depend on a host is the Link of Trunk.
--
-- Audio models the audio of local clients: the filters of ReflectorClient.{h,cpp} that choose who
-- a broadcast goes to, and of Reflector.cpp the sequence numbers and the audio and flush datagrams
-- of udpDatagramReceived, broadcastMsg and broadcastUdpMsg, and onTalkerUpdated, which is run
-- behind setTalkerForTG. An encrypted datagram of protocol 3 is its counter and whether its source
-- port is right. Audio.Selection is ReflectorClient::setTg on top of TgHandler. Hub has the
-- clients, the talk groups, the links and what is sent; the links of a Hub have one peer host
-- each.
--
-- Login models the login of a client in ReflectorClient.cpp: Session has the state of a connection,
-- with a handler for each message of the login, for SSL that is ready and for the timers. Site is
-- what the client asks the reflector, the configuration, Redis and SSL for. A connection that is not
-- open fails each write, as sendMsg has it.
--
-- Nodes models the lists of clients that reflectors tell each other (MsgPeerNodeList of
-- ReflectorMsg.h), sanitizeJsonStrings, and handleMsgPeerNodeList of the links. JSON is a data type;
-- printing and parsing it are parameters; an exception of jsoncpp is `none`.
--
-- Satellite models src/svxlink/reflector/SatelliteLink.{h,cpp} and what Reflector.cpp does for
-- satellites, and SatelliteClient.{h,cpp}, their other end. Parent is a Hub with its links to
-- satellites; the handler of trunkTalkerUpdated is run where TGHandler emits it (with_handler).
--
-- Twin models src/svxlink/reflector/TwinLink.{h,cpp} and the twin server of Reflector.cpp: TwinLink
-- has both connections, TwinServer the ones that wait for their hello.
--
-- Fanout models what Reflector.cpp tells satellites, parent and twin of its clients:
-- fanoutClientConnected and the like, the debounce of receivers' levels (emitRxDebounced, one entry
-- of its table), and sendNodeListToAllPeers. Exceptions that nothing catches are `none`.
--
-- Base has the maps, sets, texts and numbers that the rest stands on, and Tests has the theorems at
-- concrete states.
--
-- Every other function is structural recursion on lists, but for the printing of numbers.
-- Counters of 32 bits and conversions to them wrap around as in the source.
--
-- Not modelled: the queue of frames to send, HMAC and random bytes (parameters), regular
-- expressions (a parameter), the addresses of connections (a parameter), the messages of clients
-- but for their login and audio, the configuration's reading and reloading, certificates, HTTP status and
-- PTY commands, Redis, MQTT, sockets and the event loop. But for onTalkerUpdated in Audio and
-- onTrunkTalkerUpdated in Satellite, a handler that the source runs inside another by a signal is
-- not run there: the signal is in a log.
pub mod Base
pub mod TgHandler
pub mod TgFilter
pub mod Trunk
pub mod ProtoVer
pub mod Framing
pub mod Wire
pub mod Server
pub mod Paired
pub mod Audio
pub mod Login
pub mod Nodes
pub mod Satellite
pub mod Twin
pub mod Fanout
pub mod Tests
