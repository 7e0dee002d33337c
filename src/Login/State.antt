-- ===== src/Login/State.antt =====
-- ReflectorClient.{h,cpp}: the state of a client's connection, and what ends it.
use geu_reflector.Base.{
  ℕ, ◌+◌, ◌-◌, ◌%◌, ◌^◌, List, [], ◌∷◌, ◌++◌, Bool, true, false, not, ◌&&◌, Bytes, leb,
  if◌then◌else◌, ◌==◌,
}
use geu_reflector.ProtoVer.{Version}

pub data ConState : Type 0 where
  expect_disconnect : ConState
  disconnected : ConState
  expect_proto_ver : ConState
  expect_start_encryption : ConState
  expect_ssl_con_ready : ConState
  expect_csr : ConState
  expect_auth_response : ConState
  connected : ConState

abbrev pub state_number : ConState → ℕ
state_number expect_disconnect = 0
state_number disconnected = 1
state_number expect_proto_ver = 2
state_number expect_start_encryption = 3
state_number expect_ssl_con_ready = 4
state_number expect_csr = 5
state_number expect_auth_response = 6
state_number connected = 7

-- The messages that the reflector sends to a client in its login.
pub data Reply : Type 0 where
  heartbeat : Reply
  proto_ver_downgrade : Reply
  auth_challenge : Bytes → Reply
  auth_ok : Reply
  error_message : Reply
  start_encryption : Reply
  client_csr_request : Reply
  client_cert : Bytes → Reply
  ca_info : Reply
  ca_bundle : Reply
  server_info : List Bytes → Reply
  node_list : List Bytes → Reply

abbrev pub reply_type : Reply → ℕ
reply_type heartbeat = 1
reply_type proto_ver_downgrade = 6
reply_type (auth_challenge c) = 10
reply_type auth_ok = 12
reply_type error_message = 13
reply_type start_encryption = 15
reply_type client_csr_request = 16
reply_type (client_cert pem) = 18
reply_type ca_info = 19
reply_type ca_bundle = 21
reply_type (server_info nodes) = 100
reply_type (node_list nodes) = 101

-- What a client's connection does: the messages that it sends, and its calls of the reflector.
pub data ClientCall : Type 0 where
  sent : Reply → ClientCall
  closed : ClientCall
  udp_heartbeat : ClientCall
  set_v1_tg : ClientCall
  node_joined : Bytes → ClientCall
  client_authenticated : Bytes → ClientCall

-- The port of the client's datagrams is nonzero exactly where `has_udp_port` is true. A connection
-- that is not open takes no message.
pub record Session : Type 0 where
  pub con_state : ConState
  pub is_open : Bool
  pub client_proto_ver : Version
  pub challenge : Bytes
  pub callsign : Bytes
  pub has_udp_port : Bool
  pub heartbeat_timer : Bool
  pub disc_timer : Bool
  pub heartbeat_tx_cnt : ℕ
  pub heartbeat_rx_cnt : ℕ
  pub udp_heartbeat_tx_cnt : ℕ
  pub udp_heartbeat_rx_cnt : ℕ
  pub calls : List ClientCall

abbrev pub client_heartbeat_tx_reset : ℕ
client_heartbeat_tx_reset = 10

abbrev pub client_heartbeat_rx_reset : ℕ
client_heartbeat_rx_reset = 15

abbrev pub udp_heartbeat_tx_cnt_reset : ℕ
udp_heartbeat_tx_cnt_reset = 15

abbrev pub udp_heartbeat_rx_cnt_reset : ℕ
udp_heartbeat_rx_cnt_reset = 120

unfoldable pub new_session : Session
new_session = record {
  con_state = expect_proto_ver;
  is_open = true;
  client_proto_ver = record { major_ver = 0; minor_ver = 0 };
  challenge = [];
  callsign = [];
  has_udp_port = false;
  heartbeat_timer = true;
  disc_timer = false;
  heartbeat_tx_cnt = client_heartbeat_tx_reset;
  heartbeat_rx_cnt = client_heartbeat_rx_reset;
  udp_heartbeat_tx_cnt = udp_heartbeat_tx_cnt_reset;
  udp_heartbeat_rx_cnt = udp_heartbeat_rx_cnt_reset;
  calls = [];
}

unfoldable pub in_state : ConState → Session → Bool
in_state c s = state_number s.con_state == state_number c

unfoldable pub client_call : ClientCall → Session → Session
client_call c s = record s { calls = s.calls ++ (c ∷ []) }

unfoldable pub client_disconnect : Session → Session
client_disconnect s = client_call closed (record s {
  heartbeat_timer = false;
  has_udp_port = false;
  is_open = false;
  con_state = disconnected;
})

unfoldable pub is_sendable : Reply → Session → Bool
is_sendable r s = not (not (in_state connected s) && leb 100 (reply_type r)) && s.is_open

unfoldable pub client_send_msg : Reply → Session → Session
client_send_msg r s =
    if is_sendable r s
    then client_call (sent r) (record s { heartbeat_tx_cnt = client_heartbeat_tx_reset })
    else client_disconnect s

unfoldable pub send_error : Session → Session
send_error s = record (client_send_msg error_message s) {
  heartbeat_timer = false;
  has_udp_port = false;
  disc_timer = true;
  con_state = expect_disconnect;
}

unfoldable pub send_udp_heartbeat : Session → Session
send_udp_heartbeat s =
    if s.has_udp_port
    then client_call udp_heartbeat (record s { udp_heartbeat_tx_cnt = udp_heartbeat_tx_cnt_reset })
    else s

-- A counter of 32 bits that is counted down.
unfoldable pub count_down : ℕ → ℕ
count_down n = (n + (2 ^ 32 - 1)) % 2 ^ 32
