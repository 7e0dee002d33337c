-- ===== src/Server/State.antt =====
-- Reflector.h: the tables of the trunk server. A connection is the number that stands for its
-- pointer, a timer likewise, and a link its place in `m_trunk_links`. What is done to a connection
-- is the newest entry of `calls`.
use geu_reflector.Base.{ℕ, List, ◌∷◌, Map}
use geu_reflector.TgHandler.State.{TgHandler}
use geu_reflector.Trunk.State.{Link}

-- TRUNK_MAX_PENDING_CONS, and the limit for one address
abbrev pub trunk_max_pending_cons : ℕ
trunk_max_pending_cons = 5

abbrev pub max_pending_from_host : ℕ
max_pending_from_host = 2

-- MAX_SSL_SETUP_FRAME_SIZE, MAX_POSTAUTH_FRAME_SIZE
abbrev pub max_ssl_setup_frame_size : ℕ
max_ssl_setup_frame_size = 4096

abbrev pub max_postauth_frame_size : ℕ
max_postauth_frame_size = 4194304

pub data Call : Type 0 where
  disconnect : ℕ → Call
  set_max_frame_size : ℕ → ℕ → Call
  connect_frame_received : ℕ → Call
  clear_frame_received : ℕ → Call
  start_timer : ℕ → Call
  delete_timer : ℕ → Call

pub record TrunkServer : Type 0 where
  pub pending : Map ℕ
  pub inbound_map : Map ℕ
  pub links : List Link
  pub tgs : TgHandler
  pub calls : List Call

abbrev pub call : Call → TrunkServer → TrunkServer
call c s = record s { calls = c ∷ s.calls }
