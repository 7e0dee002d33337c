-- ===== src/Audio/Turns.antt =====
-- Reflector.cpp: who is heard. A talk group has one talker at a time, and a client hears one talk
-- group at a time.
use geu_reflector.Base.{
  ℕ, ◌≡◌, refl, ap, ◌∙◌, true, false, ◌&&◌, ◌||◌, List, [], ◌∷◌, Bytes, is_empty, contains, ◌==◌,
  Bool-cases, inl, inr, arith,
}
use geu_reflector.TgHandler.State.{TgHandler, talker_for_tg}
use geu_reflector.Trunk.State.{Reflector}
use geu_reflector.Audio.Filters.{
  Client, is_blocked, tg_of, has_talker, is_same, passes_filter, earliest_monitor_talker,
}
use geu_reflector.Audio.Earliest.{earliest_monitor_talker_unique}
use geu_reflector.Audio.Broadcast.{Hub, listeners, audio_filter, udp_audio_received}

-- A client that passes is in the talk group, or it is passive and this is the earliest one.
record Hears (h : TgHandler) (client tg : ℕ) (c : Client) : Type 0 where
  place :
      ((tg == tg_of client h)
        || (contains tg c.monitored_tgs && ((c.current_tg == 0) && earliest_monitor_talker h tg c)))
      ≡ true

audio_filter-Hears :
    (h : TgHandler) (talker client tg : ℕ) (c : Client)
    → passes_filter h (audio_filter talker tg) client c ≡ true
    → Hears h client tg c
unfolding audio_filter listeners passes_filter
audio_filter-Hears h talker client tg c p = record { place = ground arith }

audio_filter_unique :
    (h : TgHandler) (talker talker' client tg tg' : ℕ) (c : Client)
    → c.current_tg ≡ tg_of client h
    → (tg == 0) ≡ false
    → (tg' == 0) ≡ false
    → has_talker h tg ≡ true
    → has_talker h tg' ≡ true
    → passes_filter h (audio_filter talker tg) client c ≡ true
    → passes_filter h (audio_filter talker' tg') client c ≡ true
    → tg ≡ tg'
audio_filter_unique h talker talker' client tg tg' c same n n' t t' p p' =
    let a = (audio_filter-Hears h talker client tg c p).place in
    let b = (audio_filter-Hears h talker' client tg' c p').place in
    elim (Bool-cases (c.current_tg == 0)) [
      | inr selected ↦ ground (arith, same, selected, a, b)
      | inl passive ↦
          earliest_monitor_talker_unique h c tg tg' t t' (ground (arith, same, passive, a, n))
            (ground (arith, same, passive, b, n'))
    ]

-- A client that passes the filter for the audio of one talk group does not pass that of another one,
-- where both have a talker and the client is in the talk group that it has selected.
pub audio_filter_other :
    (h : TgHandler) (talker talker' client tg tg' : ℕ) (c : Client)
    → c.current_tg ≡ tg_of client h
    → (tg == 0) ≡ false
    → (tg' == 0) ≡ false
    → (tg == tg') ≡ false
    → has_talker h tg ≡ true
    → has_talker h tg' ≡ true
    → passes_filter h (audio_filter talker tg) client c ≡ true
    → passes_filter h (audio_filter talker' tg') client c ≡ false
audio_filter_other h talker talker' client tg tg' c same n n' apart t t' p =
    elim (Bool-cases (passes_filter h (audio_filter talker' tg') client c)) [
      | inr miss ↦ miss
      | inl hit ↦
          let equal : tg ≡ tg' =
            audio_filter_unique h talker talker' client tg tg' c same n n' t t' p hit in
          absurd (ground (arith, apart, equal))
    ]

-- The audio datagrams of some clients, each with the time at which it comes.
abbrev pub audio_all : Reflector → List (ℕ × ℕ × Client × Bytes) → Hub → Hub
audio_all r [] s = s
audio_all r ((now, client, c, samples) ∷ ds) s =
    audio_all r ds (udp_audio_received r now client c samples s)

-- All of them are of clients in talk groups where another one talks, here or on a trunk.
abbrev pub OthersTalk : Hub → List (ℕ × ℕ × Client × Bytes) → Type 0
OthersTalk s [] = Unit
OthersTalk s ((now, client, c, samples) ∷ ds) =
    (has_talker s.tgs (tg_of client s.tgs) ≡ true)
    × (is_same client (talker_for_tg (tg_of client s.tgs) s.tgs) ≡ false)
    × OthersTalk s ds

udp_audio_received-kept :
    (r : Reflector) (now client : ℕ) (c : Client) (samples : Bytes) (s : Hub)
    → has_talker s.tgs (tg_of client s.tgs) ≡ true
    → is_same client (talker_for_tg (tg_of client s.tgs) s.tgs) ≡ false
    → udp_audio_received r now client c samples s ≡ s
unfolding udp_audio_received
udp_audio_received-kept r now client c samples s t o =
    elim (Bool-cases (is_blocked c || is_empty samples || tg_of client s.tgs == 0)) [
      | inl e ↦ rw (udp_audio_received, e) refl
      | inr e ↦ rw (udp_audio_received, e, t, o) refl
    ]

-- While others talk in their talk groups, here or on a trunk, the audio of any clients, in any
-- number and at any times, changes nothing and goes to nobody.
audio_all-kept :
    (r : Reflector) (ds : List (ℕ × ℕ × Client × Bytes)) (s : Hub)
    → OthersTalk s ds
    → audio_all r ds s ≡ s
audio_all-kept r [] s h = refl
audio_all-kept r ((now, client, c, samples) ∷ ds) s (t, o, h) =
    ap (audio_all r ds) (udp_audio_received-kept r now client c samples s t o)
    ∙ audio_all-kept r ds s h
