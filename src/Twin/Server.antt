-- ===== src/Twin/Server.antt =====
-- Reflector.cpp: connections to the twin server, which wait for their hello. A timer is a number.
use geu_reflector.Base.{
  ℕ, suc, Bool, false, not, List, [], ◌∷◌, Option, none, some, Map, find, assign, erase, bytes_eq,
  ◌==◌, if◌then◌else◌, is_some,
}
use geu_reflector.Trunk.State.{Reflector, Hello, hello, verify, role_twin}
use geu_reflector.Wire.Links.{LinkMsg, peer}
use geu_reflector.Satellite.Frames.{SatFrame, bad_header, bad_body, odd_frame, message}
use geu_reflector.Twin.State.{TwinLink, TwinWorld}
use geu_reflector.Twin.Connect.{accept_twin_inbound, twin_inbound_disconnected}

-- `twin_pending` is m_twin_pending_cons; `closed` has the connections that the server disconnects.
pub record TwinServer : Type 0 where
  pub twin_pending : Map ℕ
  pub next_timer : ℕ
  pub world : TwinWorld
  pub closed : List ℕ

unfoldable pub twin_client_connected : ℕ → TwinServer → TwinServer
twin_client_connected con s = record s {
  twin_pending = assign con s.next_timer s.twin_pending;
  next_timer = suc s.next_timer;
}

-- The handlers of `disconnected`: that of the server, and that of the link.
unfoldable pub twin_client_disconnected : ℕ → TwinServer → TwinServer
twin_client_disconnected con s = record s {
  twin_pending = erase con s.twin_pending;
  world = record s.world { link = twin_inbound_disconnected con s.world.link };
}

unfoldable pub reject_twin_pending : ℕ → TwinServer → TwinServer
reject_twin_pending con s = record s {
  twin_pending = erase con s.twin_pending;
  closed = con ∷ s.closed;
}

-- The hello of a frame that has one.
abbrev pub hello_of_msg : LinkMsg → Option Hello
hello_of_msg (peer (hello h)) = some h
hello_of_msg m = none

abbrev pub hello_of_frame : SatFrame → Option Hello
hello_of_frame bad_header = none
hello_of_frame (bad_body first) = none
hello_of_frame odd_frame = none
hello_of_frame (message m) = hello_of_msg m

-- Is the hello that of a twin with the link's secret and prefix?
unfoldable pub is_twin_hello : Reflector → TwinLink → Hello → Bool
is_twin_hello r l h =
    if not (h.role == role_twin)
    then false
    else if not (verify r h l.secret)
    then false
    else bytes_eq h.local_prefix l.local_prefix

unfoldable pub twin_pending_frame_received : Reflector → ℕ → SatFrame → TwinServer → TwinServer
twin_pending_frame_received r con f s =
    if not (is_some (find con s.twin_pending)) then s else elim (hello_of_frame f) [
      | none ↦ reject_twin_pending con s
      | some h ↦
          if not (is_twin_hello r s.world.link h) then reject_twin_pending con s else record s {
            twin_pending = erase con s.twin_pending;
            world = record s.world { link = accept_twin_inbound r con h s.world.link };
          }
    ]

-- The connection of a timer.
unfoldable pub con_of_twin_timer : ℕ → Map ℕ → Option ℕ
con_of_twin_timer timer [] = none
con_of_twin_timer timer ((con, t) ∷ m) =
    let rest = con_of_twin_timer timer m in if t == timer then some con else rest

unfoldable pub twin_pending_timeout : ℕ → TwinServer → TwinServer
twin_pending_timeout timer s = elim (con_of_twin_timer timer s.twin_pending) [
  | none ↦ s
  | some con ↦ reject_twin_pending con s
]
