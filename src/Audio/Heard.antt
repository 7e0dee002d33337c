-- ===== src/Audio/Heard.antt =====
-- Reflector.cpp: the first to speak in a talk group is heard by the others there.
use geu_reflector.Base.{
  ℕ, ◌≡◌, refl, ap, ◌∙◌, true, false, some, Bytes, is_empty, find, ◌==◌, Elem, Option-cases, inl,
  inr, arith, ==_self,
}
use geu_reflector.TgHandler.State.{TgHandler, TgInfo, talker_for_tg, tg_for_client}
use geu_reflector.TgHandler.Talkers.{set_talker_for_tg}
use geu_reflector.TgHandler.Retains.{
  Retains, Retains-trans, with_talker, find-set_talker_for_tg, set_talker_for_tg-Retains,
}
use geu_reflector.Trunk.State.{Reflector}
use geu_reflector.Audio.Filters.{Client, is_blocked, tg_of, has_talker, is_same, passes_filter}
use geu_reflector.Audio.Broadcast.{
  Hub, sent_udp, udp_audio, broadcast, listeners, audio_filter, set_talker, forward_audio,
  udp_audio_received,
}
use geu_reflector.Audio.Delivery.{set_talker-Set, pass_on-Kept, broadcast_from-new}

-- Changes of talkers leave each client in its talk group.
Retains-tg_of : (d : ℕ) (s t : TgHandler) → Retains s t → tg_of d t ≡ tg_of d s
unfolding tg_for_client
Retains-tg_of d s t k = elim (Option-cases (find d s.client_map)) [
  | inl e ↦ rw (tg_for_client, k.pointers, e) refl
  | inr (g, e) ↦ rw (tg_for_client, k.pointers, e) (ground (arith, k.infos g))
]

-- Setting a client as the talker makes it the talker, and keeps the talk group's entry.
talker-set_talker_for_tg :
    (now tg client : ℕ) (s : TgHandler) (i : TgInfo)
    → find tg s.id_map ≡ some i
    → (talker_for_tg tg (set_talker_for_tg now tg (some client) s) ≡ some client)
      × ((j : TgInfo) × (find tg (set_talker_for_tg now tg (some client) s).id_map ≡ some j))
unfolding talker_for_tg
talker-set_talker_for_tg now tg client s i e =
    let entry : find tg (set_talker_for_tg now tg (some client) s).id_map
        ≡ some (with_talker now s.sql_timeout (some client) i) =
      find-set_talker_for_tg now tg tg (some client) s ∙ rw (==_self tg, e) refl in
    (
      rw (talker_for_tg, entry) (ground arith),
      (with_talker now s.sql_timeout (some client) i, entry),
    )

-- A client in the talk group that is not the talker passes the filter.
audio_filter-member :
    (h : TgHandler) (d client tg : ℕ) (c : Client)
    → tg_of d h ≡ tg
    → (d == client) ≡ false
    → passes_filter h (audio_filter client tg) d c ≡ true
unfolding passes_filter audio_filter listeners
audio_filter-member h d client tg c there other =
    let here : (tg == tg_of d h) ≡ true = ground (arith, there) in rw (other, here) refl

forward_audio-heard :
    (r : Reflector) (now tg client d : ℕ) (c : Client) (samples : Bytes) (s : Hub)
    → Elem (d, c) s.clients
    → c.is_connected ≡ true
    → tg_of d s.tgs ≡ tg
    → (d == client) ≡ false
    → Elem (sent_udp d (udp_audio samples)) (forward_audio r now tg client samples s).calls
      × ((forward_audio r now tg client samples s).tgs ≡ s.tgs)
unfolding forward_audio broadcast
forward_audio-heard r now tg client d c samples s e up there other =
    let s' = broadcast (λ k. sent_udp k (udp_audio samples)) (audio_filter client tg) s in
    let hits : passes_filter s.tgs (audio_filter client tg) d c ≡ true =
      audio_filter-member s.tgs d client tg c there other in
    let k = pass_on-Kept _ _ _ _ s' in
    (
      k.calls _
          (broadcast_from-new s.tgs _ (audio_filter client tg) s.clients s.calls d c e hits up),
      k.tgs,
    )

-- When nobody talks in a talk group, the audio of a client there that is not blocked makes it the
-- talker, and every other connected client there is sent that audio.
pub udp_audio_received-heard :
    (r : Reflector) (now client d : ℕ) (c cd : Client) (samples : Bytes) (s : Hub) (i : TgInfo)
    → is_blocked c ≡ false
    → is_empty samples ≡ false
    → (tg_of client s.tgs == 0) ≡ false
    → has_talker s.tgs (tg_of client s.tgs) ≡ false
    → find (tg_of client s.tgs) s.tgs.id_map ≡ some i
    → Elem (d, cd) s.clients
    → cd.is_connected ≡ true
    → tg_of d s.tgs ≡ tg_of client s.tgs
    → (d == client) ≡ false
    → (talker_for_tg (tg_of client s.tgs) (udp_audio_received r now client c samples s).tgs
        ≡ some client)
      × Elem (sent_udp d (udp_audio samples)) (udp_audio_received r now client c samples s).calls
unfolding udp_audio_received
udp_audio_received-heard r now client d c cd samples s i free full on quiet e there up same other =
    let tg = tg_of client s.tgs in
    let s1 = set_talker r now tg (some client) s in
    let a = set_talker-Set r now tg (some client) s i e in
    let (talks, (j, e1)) = talker-set_talker_for_tg now tg client s.tgs i e in
    let s2 = set_talker r now tg (some client) s1 in
    let b = set_talker-Set r now tg (some client) s1 j (rw a.tgs e1) in
    let talks2 = talker-set_talker_for_tg now tg client s1.tgs j (rw a.tgs e1) in
    let kept : Retains s.tgs s2.tgs =
      rw (b.tgs, a.tgs)
        (Retains-trans (set_talker_for_tg-Retains now tg (some client) s.tgs) (
          set_talker_for_tg-Retains now tg (some client)
            (set_talker_for_tg now tg (some client) s.tgs))) in
    let is_talker : is_same client (talker_for_tg tg s1.tgs) ≡ true =
      rw (a.tgs, talks, ==_self client) refl in
    let heard =
      forward_audio-heard r now tg client d cd samples s2 (rw (b.clients, a.clients) there) up
        (Retains-tg_of d s.tgs s2.tgs kept ∙ same) other in
    rw (udp_audio_received, free, full, on, quiet, is_talker)
      (ap (talker_for_tg tg) (heard.1 ∙ b.tgs) ∙ talks2.0, heard.0)
