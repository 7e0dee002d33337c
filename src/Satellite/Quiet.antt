-- ===== src/Satellite/Quiet.antt =====
-- SatelliteLink.cpp and Reflector.cpp: operations that send a satellite no audio.
use geu_reflector.Base.{
  ℕ, ◌≡◌, refl, ◌∙◌, ap, Bool, true, false, not, List, [], ◌∷◌, Option, none, some, NatSet, Bytes,
  Map, find, contains, ltb, ◌==◌, if◌then◌else◌, is_empty, length, Bool-cases, Option-cases, inl,
  inr, arith, insert, remove,
}
use geu_reflector.TgHandler.State.{
  TgHandler, Signal, talker_updated, request_auto_qsy, set_block, trunk_talker_updated,
}
use geu_reflector.TgHandler.TrunkTalkers.{
  set_trunk_talker_for_tg_via_peer, clear_trunk_talker_for_tg,
}
use geu_reflector.Trunk.State.{
  Reflector, Hello, talker_start, talker_stop, audio, flush, verify, role_satellite,
}
use geu_reflector.Wire.Links.{LinkMsg, peer}
use geu_reflector.Nodes.Json.{Json}
use geu_reflector.Satellite.State.{
  SatelliteLink, Parent, at_satellite, update_satellite, every_satellite, satellites_except,
  send_to_satellite, to_satellite, on_parent_talker_start, on_parent_talker_stop, on_parent_audio,
  on_parent_flush, resolve_satellite_secret,
}
use geu_reflector.Satellite.Events.{
  on_trunk_talker_updated, run_signal, with_handler, on_satellite_talker_start,
  on_satellite_talker_stop, satellite_audio_received, satellite_flush_received,
}
use geu_reflector.Satellite.Frames.{
  refuse_satellite, on_satellite_link_failed, admit_satellite, satellite_hello, parent_hello,
}

pub is_sound : LinkMsg → Bool
is_sound (peer (audio tg samples)) = true
is_sound (peer (flush tg)) = true
is_sound m = false

-- The audio, and the ends of it, among messages.
pub sounds : List LinkMsg → List LinkMsg
unfolding is_sound
sounds [] = []
sounds (m ∷ ms) = let rest = sounds ms in if is_sound m then m ∷ rest else rest

abbrev pub sounds_to : Option SatelliteLink → List LinkMsg
sounds_to none = []
sounds_to (some l) = sounds l.out

-- An operation on a link that sends it no audio.
abbrev pub IsQuiet : (SatelliteLink → SatelliteLink) → Type 0
IsQuiet f = (l : SatelliteLink) → sounds (f l).out ≡ sounds l.out

pub update-quiet :
    (d con : ℕ) (f : SatelliteLink → SatelliteLink) (m : Map SatelliteLink)
    → IsQuiet f
    → sounds_to (find d (update_satellite con f m)) ≡ sounds_to (find d m)
unfolding find update_satellite
update-quiet d con f [] q = refl
update-quiet d con f ((c, l) ∷ m) q = ground (arith, q l, update-quiet d con f m q)

every-quiet :
    (d : ℕ) (f : SatelliteLink → SatelliteLink) (m : Map SatelliteLink)
    → IsQuiet f
    → sounds_to (find d (every_satellite f m)) ≡ sounds_to (find d m)
unfolding find every_satellite
every-quiet d f [] q = refl
every-quiet d f ((c, l) ∷ m) q = ground (arith, q l, every-quiet d f m q)

except_self :
    (con : ℕ) (f : SatelliteLink → SatelliteLink) (m : Map SatelliteLink)
    → find con (satellites_except con f m) ≡ find con m
unfolding find satellites_except
except_self con f [] = refl
except_self con f ((c, l) ∷ m) = ground (arith, except_self con f m)

sent-IsQuiet : (m : LinkMsg) → is_sound m ≡ false → IsQuiet (send_to_satellite m)
unfolding send_to_satellite sounds
sent-IsQuiet m h l = ground arith

to-quiet : (tg : ℕ) (m : LinkMsg) → is_sound m ≡ false → IsQuiet (to_satellite tg m)
to-quiet tg m h l = ground (arith, sent-IsQuiet m h l)

start-IsQuiet : (tg : ℕ) (callsign : Bytes) → IsQuiet (on_parent_talker_start tg callsign)
unfolding on_parent_talker_start is_sound
start-IsQuiet tg callsign l = to-quiet tg (peer (talker_start tg callsign)) refl l

stop-IsQuiet : (tg : ℕ) → IsQuiet (on_parent_talker_stop tg)
unfolding on_parent_talker_stop is_sound
stop-IsQuiet tg l = to-quiet tg (peer (talker_stop tg)) refl l

abbrev pub SameSounds : ℕ → Parent → Parent → Type 0
SameSounds d p p' = sounds_to (find d p'.sats) ≡ sounds_to (find d p.sats)

talker_updated-quiet :
    (d tg : ℕ) (old new : Bytes) (p : Parent)
    → SameSounds d p (on_trunk_talker_updated tg old new p)
unfolding on_trunk_talker_updated
talker_updated-quiet d tg old new p = elim (Bool-cases (not (is_empty new))) [
  | inl a ↦ rw a (every-quiet d (on_parent_talker_start tg new) p.sats (start-IsQuiet tg new))
  | inr a ↦ elim (Bool-cases (not (is_empty old))) [
    | inl b ↦ rw (a, b) (every-quiet d (on_parent_talker_stop tg) p.sats (stop-IsQuiet tg))
    | inr b ↦ rw (a, b) refl
  ]
]

signal-quiet : (d : ℕ) (log : List Signal) (p : Parent) → SameSounds d p (run_signal log p)
unfolding run_signal
signal-quiet d [] p = refl
signal-quiet d (trunk_talker_updated tg old new id ∷ log) p = talker_updated-quiet d tg old new p
signal-quiet d (talker_updated tg old new ∷ log) p = refl
signal-quiet d (request_auto_qsy tg ∷ log) p = refl
signal-quiet d (set_block c t ∷ log) p = refl

with_handler-quiet :
    (d : ℕ) (f : TgHandler → TgHandler) (p : Parent) → SameSounds d p (with_handler f p)
unfolding with_handler
with_handler-quiet d f p =
    let h = f p.hub.tgs in
    let p' = record p { hub = record p.hub { tgs = h } } in
    elim (Bool-cases (ltb (length p.hub.tgs.log) (length h.log))) [
      | inl e ↦ rw e (signal-quiet d h.log p')
      | inr e ↦ rw e refl
    ]

module _ (write : Json → Bytes) (parse_json : Bytes → Option Json) (r : Reflector)
    (now con : ℕ) where
  pub talker_start-quiet :
      (id : Bytes) (tg : ℕ) (callsign : Bytes) (p : Parent)
      → SameSounds con p (on_satellite_talker_start r now con id tg callsign p)
  unfolding on_satellite_talker_start
  talker_start-quiet id tg callsign p =
      let f : SatelliteLink → SatelliteLink =
        λ l. record l { sat_active_tgs = insert tg l.sat_active_tgs } in
      with_handler-quiet con (set_trunk_talker_for_tg_via_peer now tg callsign id)
        (at_satellite con f p)
      ∙ update-quiet con con f p.sats (λ l. refl)

  pub talker_stop-quiet :
      (tg : ℕ) (p : Parent) → SameSounds con p (on_satellite_talker_stop r now con tg p)
  unfolding on_satellite_talker_stop
  talker_stop-quiet tg p =
      let f : SatelliteLink → SatelliteLink =
        λ l. record l { sat_active_tgs = remove tg l.sat_active_tgs } in
      with_handler-quiet con (clear_trunk_talker_for_tg now tg) (at_satellite con f p)
      ∙ update-quiet con con f p.sats (λ l. refl)

  pub audio-quiet :
      (active : NatSet) (tg : ℕ) (samples : Bytes) (p : Parent)
      → SameSounds con p (satellite_audio_received r now con active tg samples p)
  unfolding satellite_audio_received
  audio-quiet active tg samples p = elim (Bool-cases (is_empty samples)) [
    | inl a ↦ rw a refl
    | inr a ↦ elim (Bool-cases (contains tg active)) [
      | inr b ↦ rw (a, b) refl
      | inl b ↦ rw (a, b) (ap sounds_to (except_self con (on_parent_audio tg samples) p.sats))
    ]
  ]

  pub flush-quiet :
      (tg : ℕ) (p : Parent) → SameSounds con p (satellite_flush_received r now con tg p)
  unfolding satellite_flush_received
  flush-quiet tg p = ap sounds_to (except_self con (on_parent_flush tg) p.sats)

  refuse-quiet : (p : Parent) → SameSounds con p (refuse_satellite con p)
  unfolding refuse_satellite on_satellite_link_failed
  refuse-quiet p = update-quiet con con (λ l. record l { is_open = false }) p.sats (λ l. refl)

  admit-IsQuiet : (h : Hello) (secret : Bytes) → IsQuiet (admit_satellite r h secret)
  unfolding admit_satellite parent_hello is_sound
  admit-IsQuiet h secret l = sent-IsQuiet (parent_hello r secret) refl _

  pub hello-quiet : (h : Hello) (p : Parent) → SameSounds con p (satellite_hello r con h p)
  unfolding satellite_hello
  hello-quiet h p =
      let no = refuse-quiet p in
      elim (Bool-cases (is_empty h.id)) [
        | inl a ↦ rw a no
        | inr a ↦ elim (Bool-cases (h.role == role_satellite)) [
          | inr b ↦ rw (a, b) no
          | inl b ↦ elim (Option-cases (resolve_satellite_secret p h.id)) [
            | inl c ↦ rw (a, b, c) no
            | inr (secret, c) ↦ elim (Bool-cases (verify r h secret)) [
              | inr v ↦ rw (a, b, c, v) no
              | inl v ↦
                  rw (a, b, c, v)
                    (update-quiet con con (admit_satellite r h secret) p.sats
                      (admit-IsQuiet h secret))
            ]
          ]
        ]
      ]
