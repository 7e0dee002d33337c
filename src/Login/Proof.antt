-- ===== src/Login/Proof.antt =====
-- ReflectorClient.cpp: what has to come in for a client to be connected.
use geu_reflector.Base.{
  ◌≡◌, refl, List, [], ◌∷◌, Option, none, some, true, false, not, ◌&&◌, ◌||◌, Bytes, leb,
  if◌then◌else◌, Bool-cases, inl, inr, arith,
}
use geu_reflector.Login.State.{
  expect_disconnect, disconnected, expect_ssl_con_ready, expect_csr, connected, client_csr_request,
  Session, in_state, client_disconnect, client_send_msg, send_error, client_heartbeat_rx_reset,
}
use geu_reflector.Login.Handlers.{
  Certificate, Site, ClientFrame, bad_header, heartbeat_frame, proto_ver, ca_bundle_request,
  start_encryption_request, auth_response, client_csr, error_frame, user_frame, unknown_frame,
  connection_authenticated, handle_frame, client_frame_received, on_ssl_connection_ready, is_bad,
  frame_type,
}
use geu_reflector.Login.Events.{
  LoginEvent, frame_in, ssl_ready, heartbeat_due, disc_timeout, peer_gone, login_step, login_run,
  is_proof, proves, some_proves,
}
use geu_reflector.Login.Unconnected.{
  send_error-unconnected, client_disconnect-unconnected, if-unconnected,
  handle_msg_proto_ver-unconnected, handle_msg_client_csr-unconnected,
  connection_authenticated-unconnected, handle_msg_auth_response-unconnected,
  handle_heartbeat-unconnected, ca_bundle-unconnected, start_encryption-unconnected, none_response,
}

handle_frame-unconnected :
    (e : Site) (random : Option Bytes) (nodes nodes' : List Bytes) (frame : ClientFrame)
    (s : Session)
    → in_state connected s ≡ false
    → proves e (frame_in random nodes nodes' frame) s ≡ false
    → in_state connected (handle_frame e random nodes nodes' frame s) ≡ false
unfolding handle_frame proves
handle_frame-unconnected e random nodes nodes' bad_header s h p = h
handle_frame-unconnected e random nodes nodes' heartbeat_frame s h p = h
handle_frame-unconnected e random nodes nodes' (proto_ver m) s h p =
    handle_msg_proto_ver-unconnected random m s h
handle_frame-unconnected e random nodes nodes' ca_bundle_request s h p = ca_bundle-unconnected s h
handle_frame-unconnected e random nodes nodes' (start_encryption_request ok) s h p =
    start_encryption-unconnected ok s
handle_frame-unconnected e random nodes nodes' (auth_response none) s h p =
    none_response e nodes nodes' s
handle_frame-unconnected e random nodes nodes' (auth_response (some m)) s h p =
    handle_msg_auth_response-unconnected e nodes nodes' m s p
handle_frame-unconnected e random nodes nodes' (client_csr m) s h p =
    handle_msg_client_csr-unconnected e random m s h
handle_frame-unconnected e random nodes nodes' error_frame s h p = client_disconnect-unconnected s
handle_frame-unconnected e random nodes nodes' (user_frame refused) s h p =
    if-unconnected refused (send_error s) s (λ _. send_error-unconnected s) λ _. h
handle_frame-unconnected e random nodes nodes' (unknown_frame ty) s h p = h

reset-unconnected :
    (s : Session)
    → in_state connected s ≡ false
    → in_state connected (record s { heartbeat_rx_cnt = client_heartbeat_rx_reset }) ≡ false
unfolding in_state
reset-unconnected s h = h

proves_frame :
    (e : Site) (random : Option Bytes) (nodes nodes' : List Bytes) (frame : ClientFrame)
    (s : Session)
    → proves e (frame_in random nodes nodes' frame) s ≡ false
    → proves e
        (frame_in random nodes nodes' frame)
        (record s { heartbeat_rx_cnt = client_heartbeat_rx_reset })
      ≡ false
unfolding proves is_proof in_state
proves_frame e random nodes nodes' (auth_response (some m)) s p = p
proves_frame e random nodes nodes' frame s p = p

client_frame_received-unconnected :
    (e : Site) (random : Option Bytes) (nodes nodes' : List Bytes) (frame : ClientFrame)
    (s : Session)
    → in_state connected s ≡ false
    → proves e (frame_in random nodes nodes' frame) s ≡ false
    → in_state connected (client_frame_received e random nodes nodes' frame s) ≡ false
unfolding client_frame_received
client_frame_received-unconnected e random nodes nodes' frame s h p =
    let s' = record s { heartbeat_rx_cnt = client_heartbeat_rx_reset } in
    let handled = handle_frame e random nodes nodes' frame s' in
    let early = not (in_state connected s) && leb 100 (frame_type frame) in
    let last = if early then s else handled in
    let next = if is_bad frame then send_error s else last in
    if-unconnected (in_state disconnected s || in_state expect_disconnect s) s next (λ _. h)
      λ _.
        if-unconnected (is_bad frame) (send_error s) last (λ _. send_error-unconnected s)
          λ _.
            if-unconnected early s handled (λ _. h)
              λ _.
                handle_frame-unconnected e random nodes nodes' frame s' (reset-unconnected s h)
                  (proves_frame e random nodes nodes' frame s p)

on_ssl_connection_ready-unconnected :
    (e : Site) (nodes nodes' : List Bytes) (cert : Option Certificate) (s : Session)
    → proves e (ssl_ready nodes nodes' cert) s ≡ false
    → in_state connected (on_ssl_connection_ready e nodes nodes' cert s) ≡ false
unfolding on_ssl_connection_ready proves in_state
on_ssl_connection_ready-unconnected e nodes nodes' none s p =
    let asked = record (client_send_msg client_csr_request s) { con_state = expect_csr } in
    if-unconnected (not (in_state expect_ssl_con_ready s)) (client_disconnect s) asked
      (λ _. client_disconnect-unconnected s) λ _. refl
on_ssl_connection_ready-unconnected e nodes nodes' (some cert) s p =
    let login = connection_authenticated nodes nodes' cert.common_name s in
    let refused = not (e.callsign_ok cert.common_name) in
    let next = if refused then client_disconnect s else login in
    if-unconnected (not (in_state expect_ssl_con_ready s)) (client_disconnect s) next
      (λ _. client_disconnect-unconnected s)
      λ a.
        if-unconnected refused (client_disconnect s) login (λ _. client_disconnect-unconnected s)
          λ b. connection_authenticated-unconnected nodes nodes' cert.common_name s (ground arith)

login_step-unconnected :
    (e : Site) (x : LoginEvent) (s : Session)
    → in_state connected s ≡ false
    → proves e x s ≡ false
    → in_state connected (login_step e x s) ≡ false
unfolding login_step in_state
login_step-unconnected e (frame_in random nodes nodes' frame) s h p =
    client_frame_received-unconnected e random nodes nodes' frame s h p
login_step-unconnected e (ssl_ready nodes nodes' cert) s h p =
    on_ssl_connection_ready-unconnected e nodes nodes' cert s p
login_step-unconnected e heartbeat_due s h p = handle_heartbeat-unconnected s h
login_step-unconnected e disc_timeout s h p = client_disconnect-unconnected s
login_step-unconnected e peer_gone s h p = h

-- A client that is connected after some events, and was not before, has proved who it is in one of
-- them: it gave an answer to its challenge, at that time, under the key of a user whose callsign may
-- connect and was not connected, or SSL became ready with a certificate of such a callsign.
pub login_run-some_proves :
    (e : Site) (xs : List LoginEvent) (s : Session)
    → in_state connected s ≡ false
    → in_state connected (login_run e xs s) ≡ true
    → some_proves e xs s ≡ true
unfolding login_run some_proves
login_run-some_proves e [] s h c = ground arith
login_run-some_proves e (x ∷ xs) s h c = elim (Bool-cases (proves e x s)) [
  | inl p ↦ rw (p) refl
  | inr p ↦
      rw (p) (login_run-some_proves e xs (login_step e x s) (login_step-unconnected e x s h p) c)
]
