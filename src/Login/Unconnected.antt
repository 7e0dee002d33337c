-- ===== src/Login/Unconnected.antt =====
-- ReflectorClient.cpp: the handlers that leave a client unconnected.
use geu_reflector.Base.{
  ◌≡◌, refl, List, Option, none, some, Bool, true, false, not, ◌&&◌, ◌||◌, Bytes, bytes_eq,
  is_empty, leb, if◌then◌else◌, ◌==◌, Bool-cases, inl, inr, arith, Option-cases,
}
use geu_reflector.ProtoVer.{Version, greater, less}
use geu_reflector.Login.State.{
  expect_disconnect, expect_proto_ver, expect_start_encryption, expect_ssl_con_ready, expect_csr,
  expect_auth_response, connected, Reply, heartbeat, proto_ver_downgrade, ca_info, ca_bundle,
  start_encryption, Session, in_state, client_call, client_disconnect, is_sendable, client_send_msg,
  send_error, send_udp_heartbeat, count_down,
}
use geu_reflector.Login.Handlers.{
  Certificate, AuthResponse, Site, lookup_user_key, verify_response, has_node,
  connection_authenticated, send_auth_challenge, handle_msg_proto_ver, handle_msg_ca_bundle_request,
  handle_msg_start_encryption_request, handle_msg_auth_response, send_client_cert,
  handle_msg_client_csr, handle_heartbeat, tick_tx, tick_udp_tx, tick_rx, tick_udp_rx,
}
use geu_reflector.Login.Events.{is_proof}

client_send_msg-unconnected :
    (r : Reply) (s : Session)
    → in_state connected s ≡ false
    → in_state connected (client_send_msg r s) ≡ false
unfolding client_send_msg client_disconnect client_call in_state
client_send_msg-unconnected r s h = elim (Bool-cases (is_sendable r s)) [
  | inl e ↦ rw (e) h
  | inr e ↦ rw (e) refl
]

pub send_error-unconnected : (s : Session) → in_state connected (send_error s) ≡ false
unfolding send_error in_state
send_error-unconnected s = refl

pub client_disconnect-unconnected : (s : Session) → in_state connected (client_disconnect s) ≡ false
unfolding client_disconnect client_call in_state
client_disconnect-unconnected s = refl

send_auth_challenge-unconnected :
    (c : Option Bytes) (s : Session) → in_state connected (send_auth_challenge c s) ≡ false
unfolding send_auth_challenge client_disconnect client_call in_state
send_auth_challenge-unconnected none s = refl
send_auth_challenge-unconnected (some c) s = refl

pub if-unconnected :
    (b : Bool) (x y : Session)
    → (b ≡ true → in_state connected x ≡ false)
    → (b ≡ false → in_state connected y ≡ false)
    → in_state connected (if b then x else y) ≡ false
if-unconnected b x y f g = elim (Bool-cases b) [ inl e ↦ rw (e) (f e) | inr e ↦ rw (e) (g e) ]

pub handle_msg_proto_ver-unconnected :
    (random : Option Bytes) (m : Option Version) (s : Session)
    → in_state connected s ≡ false
    → in_state connected (handle_msg_proto_ver random m s) ≡ false
unfolding handle_msg_proto_ver in_state
handle_msg_proto_ver-unconnected random none s h = send_error-unconnected s
handle_msg_proto_ver-unconnected random (some v) s h =
    let s' = record s { client_proto_ver = v } in
    let info = record (client_send_msg ca_info s') { con_state = expect_start_encryption } in
    let last = if leb 3 v.major_ver then info else send_auth_challenge random s' in
    let old = less v (record { major_ver = 0; minor_ver = 6 }) in
    let rest = if old then send_error s' else last in
    let new = greater v (record { major_ver = 3; minor_ver = 0 }) in
    let next = if new then client_send_msg proto_ver_downgrade s' else rest in
    if-unconnected (not (in_state expect_proto_ver s)) (send_error s) next
      (λ _. send_error-unconnected s)
      λ _.
        if-unconnected new (client_send_msg proto_ver_downgrade s') rest
          (λ _. client_send_msg-unconnected proto_ver_downgrade s' h)
          λ _.
            if-unconnected old (send_error s') last (λ _. send_error-unconnected s')
              λ _.
                if-unconnected (leb 3 v.major_ver) info (send_auth_challenge random s') (λ _. refl)
                  λ _. send_auth_challenge-unconnected random s'

send_client_cert-unconnected :
    (e : Site) (cert : Option Certificate) (s : Session)
    → in_state connected s ≡ false
    → in_state connected (send_client_cert e cert s).1 ≡ false
unfolding send_client_cert
send_client_cert-unconnected e none s h = h
send_client_cert-unconnected e (some cert) s h =
    elim (Option-cases (e.pending_csr_key cert.common_name)) [
      | inl p ↦ rw (p) (client_send_msg-unconnected _ s h)
      | inr (key, p) ↦ elim (Bool-cases (bytes_eq cert.public_key key)) [
        | inl q ↦ rw (p, q) (client_send_msg-unconnected _ s h)
        | inr q ↦ rw (p, q) h
      ]
    ]

pub handle_msg_client_csr-unconnected :
    (e : Site) (random pem : Option Bytes) (s : Session)
    → in_state connected s ≡ false
    → in_state connected (handle_msg_client_csr e random pem s) ≡ false
unfolding handle_msg_client_csr in_state
handle_msg_client_csr-unconnected e random none s h = send_error-unconnected s
handle_msg_client_csr-unconnected e random (some pem) s h =
    let sent = send_client_cert e (e.csr_received pem) s in
    let tried = in_state expect_csr s || e.is_current_csr pem in
    let s' = if tried then sent.1 else s in
    let done = record s' { con_state = expect_disconnect } in
    let asked = record (send_auth_challenge random s') { con_state = expect_auth_response } in
    let rest' = if in_state expect_csr s' then asked else s' in
    let rest = if tried && sent.0 then done else rest' in
    let checked = if not (e.read_csr pem) || not (e.check_csr pem) then send_error s else rest in
    if-unconnected (not (in_state connected s) && not (in_state expect_csr s)) (send_error s)
      checked (λ _. send_error-unconnected s)
      λ _.
        if-unconnected (not (e.read_csr pem) || not (e.check_csr pem)) (send_error s) rest
          (λ _. send_error-unconnected s)
          λ _.
            if-unconnected (tried && sent.0) done rest' (λ _. refl)
              λ _.
                if-unconnected (in_state expect_csr s') asked s' (λ _. refl)
                  λ _.
                    if-unconnected tried sent.1 s
                      (λ _. send_client_cert-unconnected e (e.csr_received pem) s h) λ _. h

pub connection_authenticated-unconnected :
    (nodes nodes' : List Bytes) (callsign : Bytes) (s : Session)
    → has_node callsign nodes ≡ true
    → in_state connected (connection_authenticated nodes nodes' callsign s) ≡ false
unfolding connection_authenticated in_state send_error
connection_authenticated-unconnected nodes nodes' callsign s h = rw (h) refl

pub handle_msg_auth_response-unconnected :
    (e : Site) (nodes nodes' : List Bytes) (m : AuthResponse) (s : Session)
    → is_proof e nodes s m ≡ false
    → in_state connected (handle_msg_auth_response e nodes nodes' (some m) s) ≡ false
unfolding handle_msg_auth_response is_proof
handle_msg_auth_response-unconnected e nodes nodes' m s h =
    let key = lookup_user_key e m.callsign in
    let proved = not (is_empty key) && verify_response e m key s.challenge in
    let login = connection_authenticated nodes nodes' m.callsign s in
    let last = if proved then login else send_error s in
    let next = if not (e.callsign_ok m.callsign) then send_error s else last in
    let refused = send_error-unconnected s in
    if-unconnected (not (in_state expect_auth_response s)) (send_error s) next (λ _. refused)
      λ a.
        if-unconnected (not (e.callsign_ok m.callsign)) (send_error s) last (λ _. refused)
          λ b.
            if-unconnected proved login (send_error s)
              (λ c. connection_authenticated-unconnected nodes nodes' m.callsign s (ground arith))
              λ _. refused

tick_tx-unconnected :
    (s : Session) → in_state connected s ≡ false → in_state connected (tick_tx s) ≡ false
unfolding tick_tx in_state
tick_tx-unconnected s h =
    let s' = record s { heartbeat_tx_cnt = count_down s.heartbeat_tx_cnt } in
    if-unconnected (count_down s.heartbeat_tx_cnt == 0) (client_send_msg heartbeat s') s'
      (λ _. client_send_msg-unconnected heartbeat s' h) λ _. h

send_udp_heartbeat-unconnected :
    (s : Session) → in_state connected s ≡ false → in_state connected (send_udp_heartbeat s) ≡ false
unfolding send_udp_heartbeat client_call in_state
send_udp_heartbeat-unconnected s h = elim (Bool-cases s.has_udp_port) [
  | inl e ↦ rw (e) h
  | inr e ↦ rw (e) h
]

tick_udp_tx-unconnected :
    (s : Session) → in_state connected s ≡ false → in_state connected (tick_udp_tx s) ≡ false
unfolding tick_udp_tx in_state
tick_udp_tx-unconnected s h =
    let s' = record s { udp_heartbeat_tx_cnt = count_down s.udp_heartbeat_tx_cnt } in
    if-unconnected (count_down s.udp_heartbeat_tx_cnt == 0) (send_udp_heartbeat s') s'
      (λ _. send_udp_heartbeat-unconnected s' h) λ _. h

tick_rx-unconnected :
    (s : Session) → in_state connected s ≡ false → in_state connected (tick_rx s) ≡ false
unfolding tick_rx in_state
tick_rx-unconnected s h =
    let s' = record s { heartbeat_rx_cnt = count_down s.heartbeat_rx_cnt } in
    if-unconnected (count_down s.heartbeat_rx_cnt == 0) (send_error s') s'
      (λ _. send_error-unconnected s') λ _. h

tick_udp_rx-unconnected :
    (s : Session) → in_state connected s ≡ false → in_state connected (tick_udp_rx s) ≡ false
unfolding tick_udp_rx in_state
tick_udp_rx-unconnected s h =
    let s' = record s { udp_heartbeat_rx_cnt = count_down s.udp_heartbeat_rx_cnt } in
    if-unconnected (count_down s.udp_heartbeat_rx_cnt == 0) (send_error s') s'
      (λ _. send_error-unconnected s') λ _. h

pub handle_heartbeat-unconnected :
    (s : Session) → in_state connected s ≡ false → in_state connected (handle_heartbeat s) ≡ false
unfolding handle_heartbeat
handle_heartbeat-unconnected s h =
    tick_udp_rx-unconnected _
      (tick_rx-unconnected _ (tick_udp_tx-unconnected _ (tick_tx-unconnected s h)))

pub ca_bundle-unconnected :
    (s : Session)
    → in_state connected s ≡ false
    → in_state connected (handle_msg_ca_bundle_request s) ≡ false
unfolding handle_msg_ca_bundle_request
ca_bundle-unconnected s h =
    if-unconnected (not (in_state expect_start_encryption s)) (client_disconnect s)
      (client_send_msg ca_bundle s) (λ _. client_disconnect-unconnected s)
      λ _. client_send_msg-unconnected ca_bundle s h

pub start_encryption-unconnected :
    (ok : Bool) (s : Session)
    → in_state connected (handle_msg_start_encryption_request ok s) ≡ false
unfolding handle_msg_start_encryption_request in_state
start_encryption-unconnected ok s =
    if-unconnected (not (in_state expect_start_encryption s) || not ok) (client_disconnect s)
      (record (client_send_msg start_encryption s) { con_state = expect_ssl_con_ready })
      (λ _. client_disconnect-unconnected s) λ _. refl

pub none_response :
    (e : Site) (nodes nodes' : List Bytes) (s : Session)
    → in_state connected (handle_msg_auth_response e nodes nodes' none s) ≡ false
unfolding handle_msg_auth_response
none_response e nodes nodes' s = send_error-unconnected s
