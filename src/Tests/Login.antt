-- ===== src/Tests/Login.antt =====
-- The login of a client at concrete events.
use geu_reflector.Base.{◌≡◌, refl, true, false, [], ◌∷◌, ◌++◌, some, none, List, codes, bytes_eq}
use geu_reflector.ProtoVer.{greater, less}
use geu_reflector.Login.State.{
  connected, new_session, in_state, client_call, client_disconnect, is_sendable, client_send_msg,
  send_error,
}
use geu_reflector.Login.Handlers.{
  Site, proto_ver, auth_response, lookup_user_key, verify_response, has_node,
  connection_authenticated, send_auth_challenge, handle_msg_proto_ver, handle_msg_auth_response,
  frame_type, is_bad, handle_frame, client_frame_received,
}
use geu_reflector.Login.Events.{LoginEvent, frame_in, login_step, login_run, some_proves}
use geu_reflector.Login.Proof.{login_run-some_proves}

-- A digest is the key before the challenge.
abbrev open_site : Site
open_site = record {
  callsign_ok = λ callsign. true;
  redis_store = some (λ callsign. codes "key");
  users = λ callsign. none;
  passwords = λ group. none;
  hmac = λ key challenge. some (key ++ challenge);
  read_csr = λ pem. false;
  check_csr = λ pem. false;
  csr_received = λ pem. none;
  is_current_csr = λ pem. false;
  pending_csr_key = λ callsign. none;
  client_cert_pem = λ callsign. [];
}

abbrev password_login : List LoginEvent
password_login =
    frame_in (some (codes "c")) [] [] (proto_ver (some (record { major_ver = 2; minor_ver = 0 })))
    ∷ frame_in none [] (codes "SM0A" ∷ [])
        (auth_response (some (record { callsign = codes "SM0A"; digest = codes "keyc" })))
    ∷ []

starts_unconnected : in_state connected new_session ≡ false
unfolding in_state new_session
starts_unconnected = refl

gets_connected : in_state connected (login_run open_site password_login new_session) ≡ true
unfolding login_run login_step client_frame_received handle_frame handle_msg_proto_ver
    handle_msg_auth_response connection_authenticated send_auth_challenge has_node verify_response
    lookup_user_key is_bad frame_type client_send_msg send_error is_sendable client_disconnect
    client_call in_state new_session greater less bytes_eq
gets_connected = refl

login_run-some_proves_example : some_proves open_site password_login new_session ≡ true
login_run-some_proves_example =
    login_run-some_proves open_site password_login new_session starts_unconnected gets_connected
