-- ===== src/Login/Events.antt =====
-- ReflectorClient.cpp: what happens to a client's connection, in order, and what proves who it is.
use geu_reflector.Base.{List, [], ◌∷◌, Option, some, Bool, false, not, ◌&&◌, ◌||◌, Bytes, is_empty}
use geu_reflector.Login.State.{
  expect_ssl_con_ready, expect_auth_response, Session, in_state, client_disconnect,
}
use geu_reflector.Login.Handlers.{
  Certificate, AuthResponse, Site, ClientFrame, auth_response, lookup_user_key, verify_response,
  has_node, client_frame_received, on_ssl_connection_ready, handle_heartbeat,
}

-- What happens to a connection: a frame, with the random bytes and the callsigns of the connected
-- clients without and with this one, SSL that is ready, the timers, and a peer that is gone, which
-- takes no more messages.
pub data LoginEvent : Type 0 where
  frame_in : Option Bytes → List Bytes → List Bytes → ClientFrame → LoginEvent
  ssl_ready : List Bytes → List Bytes → Option Certificate → LoginEvent
  heartbeat_due : LoginEvent
  disc_timeout : LoginEvent
  peer_gone : LoginEvent

unfoldable pub login_step : Site → LoginEvent → Session → Session
login_step e (frame_in random nodes nodes' frame) s =
    client_frame_received e random nodes nodes' frame s
login_step e (ssl_ready nodes nodes' cert) s = on_ssl_connection_ready e nodes nodes' cert s
login_step e heartbeat_due s = handle_heartbeat s
login_step e disc_timeout s = client_disconnect s
login_step e peer_gone s = record s { is_open = false }

unfoldable pub login_run : Site → List LoginEvent → Session → Session
login_run e [] s = s
login_run e (x ∷ xs) s = login_run e xs (login_step e x s)

-- An answer to the challenge that is under the user's key, of a callsign that may connect and does
-- not yet.
unfoldable pub is_proof : Site → List Bytes → Session → AuthResponse → Bool
is_proof e nodes s m =
    in_state expect_auth_response s
    && (e.callsign_ok m.callsign
        && (not (is_empty (lookup_user_key e m.callsign))
            && (verify_response e m (lookup_user_key e m.callsign) s.challenge
                && not (has_node m.callsign nodes))))

-- The events that prove who the client is: such an answer, or a certificate in SSL.
unfoldable pub proves : Site → LoginEvent → Session → Bool
proves e (frame_in random nodes nodes' (auth_response (some m))) s = is_proof e nodes s m
proves e (ssl_ready nodes nodes' (some cert)) s =
    in_state expect_ssl_con_ready s
    && (e.callsign_ok cert.common_name && not (has_node cert.common_name nodes))
proves e event s = false

unfoldable pub some_proves : Site → List LoginEvent → Session → Bool
some_proves e [] s = false
some_proves e (x ∷ xs) s = proves e x s || some_proves e xs (login_step e x s)
