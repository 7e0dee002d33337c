-- ===== src/Login/Handlers.antt =====
-- ReflectorClient.cpp: the messages of a client's login, its timers, and the readiness of SSL. What
-- is read of certificates and digests is a parameter, and so are the random bytes.
use geu_reflector.Base.{
  ℕ, List, [], ◌∷◌, Option, none, some, Bool, true, false, not, ◌&&◌, ◌||◌, Bytes, bytes_eq,
  is_empty, leb, if◌then◌else◌, ◌==◌,
}
use geu_reflector.ProtoVer.{Version, greater, less}
use geu_reflector.Login.State.{
  expect_disconnect, disconnected, expect_proto_ver, expect_start_encryption, expect_ssl_con_ready,
  expect_csr, expect_auth_response, connected, heartbeat, proto_ver_downgrade, auth_challenge,
  auth_ok, start_encryption, client_csr_request, client_cert, ca_info, ca_bundle, server_info,
  node_list, set_v1_tg, node_joined, client_authenticated, Session, client_heartbeat_rx_reset,
  in_state, client_call, client_disconnect, client_send_msg, send_error, send_udp_heartbeat,
  count_down,
}

pub record Certificate : Type 0 where
  pub common_name : Bytes
  pub public_key : Bytes

pub record AuthResponse : Type 0 where
  pub callsign : Bytes
  pub digest : Bytes

-- What the client asks the reflector, its configuration and SSL for. An empty answer of a store of
-- keys is a user that it does not have.
pub record Site : Type 0 where
  pub callsign_ok : Bytes → Bool
  pub redis_store : Option (Bytes → Bytes)
  pub users : Bytes → Option Bytes
  pub passwords : Bytes → Option Bytes
  pub hmac : Bytes → Bytes → Option Bytes
  pub read_csr : Bytes → Bool
  pub check_csr : Bytes → Bool
  pub csr_received : Bytes → Option Certificate
  pub is_current_csr : Bytes → Bool
  pub pending_csr_key : Bytes → Option Bytes
  pub client_cert_pem : Bytes → Bytes

-- The frames of a client by what is unpacked of them, `none` where that fails. A frame of a user is
-- one of the types from 100: what else it does is not of the login, but it may be refused.
pub data ClientFrame : Type 0 where
  bad_header : ClientFrame
  heartbeat_frame : ClientFrame
  proto_ver : Option Version → ClientFrame
  ca_bundle_request : ClientFrame
  start_encryption_request : Bool → ClientFrame
  auth_response : Option AuthResponse → ClientFrame
  client_csr : Option Bytes → ClientFrame
  error_frame : ClientFrame
  user_frame : Bool → ClientFrame
  unknown_frame : ℕ → ClientFrame

unfoldable pub frame_type : ClientFrame → ℕ
frame_type bad_header = 0
frame_type heartbeat_frame = 1
frame_type (proto_ver m) = 5
frame_type ca_bundle_request = 20
frame_type (start_encryption_request ok) = 14
frame_type (auth_response m) = 11
frame_type (client_csr m) = 17
frame_type error_frame = 13
frame_type (user_frame refused) = 100
frame_type (unknown_frame ty) = ty

unfoldable pub lookup_user_key : Site → Bytes → Bytes
lookup_user_key e callsign = elim e.redis_store [
  | some keys ↦ keys callsign
  | none ↦ elim (e.users callsign) [
    | none ↦ []
    | some group ↦
        if is_empty group then [] else elim (e.passwords group) [ none ↦ [] | some key ↦ key ]
  ]
]

unfoldable pub verify_response : Site → AuthResponse → Bytes → Bytes → Bool
verify_response e m key challenge = elim (e.hmac key challenge) [
  | none ↦ false
  | some digest ↦ bytes_eq m.digest digest
]

unfoldable pub has_node : Bytes → List Bytes → Bool
has_node c [] = false
has_node c (n ∷ nodes) = bytes_eq n c || has_node c nodes

-- `nodes` are the callsigns of the clients that are connected, and `nodes'` the same with this one.
unfoldable pub connection_authenticated : List Bytes → List Bytes → Bytes → Session → Session
connection_authenticated nodes nodes' callsign s =
    if has_node callsign nodes
    then send_error s
    else let s1 = record (client_send_msg auth_ok (record s { callsign = callsign })) {
      con_state = connected;
    } in
      let s2 = client_send_msg (server_info nodes') s1 in
      let s3 =
        if less s2.client_proto_ver (record { major_ver = 0; minor_ver = 7 })
        then client_send_msg (node_list nodes') s2
        else s2 in
      let s4 =
        if less s3.client_proto_ver (record { major_ver = 2; minor_ver = 0 })
        then client_call set_v1_tg s3
        else s3 in
      client_call (client_authenticated callsign) (client_call (node_joined callsign) s4)

unfoldable pub send_auth_challenge : Option Bytes → Session → Session
send_auth_challenge none s = client_disconnect s
send_auth_challenge (some c) s =
    record (client_send_msg (auth_challenge c) (record s { challenge = c })) {
      con_state = expect_auth_response;
    }

unfoldable pub handle_msg_proto_ver : Option Bytes → Option Version → Session → Session
handle_msg_proto_ver random none s = send_error s
handle_msg_proto_ver random (some v) s =
    let s' = record s { client_proto_ver = v } in
    if not (in_state expect_proto_ver s)
    then send_error s
    else if greater v (record { major_ver = 3; minor_ver = 0 })
    then client_send_msg proto_ver_downgrade s'
    else if less v (record { major_ver = 0; minor_ver = 6 })
    then send_error s'
    else if leb 3 v.major_ver
    then record (client_send_msg ca_info s') { con_state = expect_start_encryption }
    else send_auth_challenge random s'

unfoldable pub handle_msg_ca_bundle_request : Session → Session
handle_msg_ca_bundle_request s =
    if not (in_state expect_start_encryption s)
    then client_disconnect s
    else client_send_msg ca_bundle s

unfoldable pub handle_msg_start_encryption_request : Bool → Session → Session
handle_msg_start_encryption_request ok s =
    if not (in_state expect_start_encryption s) || not ok
    then client_disconnect s
    else record (client_send_msg start_encryption s) { con_state = expect_ssl_con_ready }

unfoldable pub handle_msg_auth_response :
    Site → List Bytes → List Bytes → Option AuthResponse → Session → Session
handle_msg_auth_response e nodes nodes' none s = send_error s
handle_msg_auth_response e nodes nodes' (some m) s =
    let key = lookup_user_key e m.callsign in
    if not (in_state expect_auth_response s)
    then send_error s
    else if not (e.callsign_ok m.callsign)
    then send_error s
    else if not (is_empty key) && verify_response e m key s.challenge
    then connection_authenticated nodes nodes' m.callsign s
    else send_error s

-- Whether a certificate is sent, and the connection after. The result of a write that fails is
-- nonzero, which as a truth value is a success.
unfoldable pub send_client_cert : Site → Option Certificate → Session → Bool × Session
send_client_cert e none s = (false, s)
send_client_cert e (some cert) s =
    let fits : Bool = elim (e.pending_csr_key cert.common_name) [
      | none ↦ true
      | some key ↦ bytes_eq cert.public_key key
    ] in
    let reply = client_cert (e.client_cert_pem cert.common_name) in
    if fits then (true, client_send_msg reply s) else (false, s)

unfoldable pub handle_msg_client_csr : Site → Option Bytes → Option Bytes → Session → Session
handle_msg_client_csr e random none s = send_error s
handle_msg_client_csr e random (some pem) s =
    let cert = e.csr_received pem in
    let (is_sent, after) = send_client_cert e cert s in
    let tried = in_state expect_csr s || e.is_current_csr pem in
    let s' = if tried then after else s in
    if not (in_state connected s) && not (in_state expect_csr s)
    then send_error s
    else if not (e.read_csr pem) || not (e.check_csr pem)
    then send_error s
    else if tried && is_sent
    then record s' { con_state = expect_disconnect }
    else if in_state expect_csr s'
    then record (send_auth_challenge random s') { con_state = expect_auth_response }
    else s'

unfoldable pub handle_frame :
    Site → Option Bytes → List Bytes → List Bytes → ClientFrame → Session → Session
handle_frame e random nodes nodes' bad_header s = s
handle_frame e random nodes nodes' heartbeat_frame s = s
handle_frame e random nodes nodes' (proto_ver m) s = handle_msg_proto_ver random m s
handle_frame e random nodes nodes' ca_bundle_request s = handle_msg_ca_bundle_request s
handle_frame e random nodes nodes' (start_encryption_request ok) s =
    handle_msg_start_encryption_request ok s
handle_frame e random nodes nodes' (auth_response m) s = handle_msg_auth_response e nodes nodes' m s
handle_frame e random nodes nodes' (client_csr m) s = handle_msg_client_csr e random m s
handle_frame e random nodes nodes' error_frame s = client_disconnect s
handle_frame e random nodes nodes' (user_frame refused) s = if refused then send_error s else s
handle_frame e random nodes nodes' (unknown_frame ty) s = s

unfoldable pub is_bad : ClientFrame → Bool
is_bad bad_header = true
is_bad frame = false

unfoldable pub client_frame_received :
    Site → Option Bytes → List Bytes → List Bytes → ClientFrame → Session → Session
client_frame_received e random nodes nodes' frame s =
    if in_state disconnected s || in_state expect_disconnect s
    then s
    else if is_bad frame
    then send_error s
    else if not (in_state connected s) && leb 100 (frame_type frame)
    then s
    else handle_frame e random nodes nodes' frame
        (record s { heartbeat_rx_cnt = client_heartbeat_rx_reset })

-- `none` is a client without a certificate.
unfoldable pub on_ssl_connection_ready :
    Site → List Bytes → List Bytes → Option Certificate → Session → Session
on_ssl_connection_ready e nodes nodes' none s =
    if not (in_state expect_ssl_con_ready s)
    then client_disconnect s
    else record (client_send_msg client_csr_request s) { con_state = expect_csr }
on_ssl_connection_ready e nodes nodes' (some cert) s =
    if not (in_state expect_ssl_con_ready s)
    then client_disconnect s
    else if not (e.callsign_ok cert.common_name)
    then client_disconnect s
    else connection_authenticated nodes nodes' cert.common_name s

unfoldable pub tick_tx : Session → Session
tick_tx s =
    let s' = record s { heartbeat_tx_cnt = count_down s.heartbeat_tx_cnt } in
    if count_down s.heartbeat_tx_cnt == 0 then client_send_msg heartbeat s' else s'

unfoldable pub tick_udp_tx : Session → Session
tick_udp_tx s =
    let s' = record s { udp_heartbeat_tx_cnt = count_down s.udp_heartbeat_tx_cnt } in
    if count_down s.udp_heartbeat_tx_cnt == 0 then send_udp_heartbeat s' else s'

unfoldable pub tick_rx : Session → Session
tick_rx s =
    let s' = record s { heartbeat_rx_cnt = count_down s.heartbeat_rx_cnt } in
    if count_down s.heartbeat_rx_cnt == 0 then send_error s' else s'

unfoldable pub tick_udp_rx : Session → Session
tick_udp_rx s =
    let s' = record s { udp_heartbeat_rx_cnt = count_down s.udp_heartbeat_rx_cnt } in
    if count_down s.udp_heartbeat_rx_cnt == 0 then send_error s' else s'

-- The times of the connection; what counts the blocking of a client is left out.
unfoldable pub handle_heartbeat : Session → Session
handle_heartbeat s = tick_udp_rx (tick_rx (tick_udp_tx (tick_tx s)))
