-- ===== src/Trunk/Relay.antt =====
-- Reflector.cpp: which talk groups of a peer go on to the other peers, and the loops over the
-- other links. A link is told apart from the sender by its place in the list.
use geu_reflector.Base.{
  ℕ, zero, suc, Bool, true, false, not, ◌&&◌, List, [], ◌∷◌, Bytes, ltb, ◌==◌, if◌then◌else◌,
  length, to_string, has_prefix,
}
use geu_reflector.Trunk.Prefixes.{has_longer, any_prefix}
use geu_reflector.Trunk.State.{Reflector, Link, is_cluster_tg}
use geu_reflector.Trunk.Local.{
  on_local_talker_start, on_local_talker_stop, on_local_audio, on_local_flush,
}

unfoldable pub best_local : Bytes → ℕ → List Bytes → ℕ
best_local s best [] = best
best_local s best (p ∷ ps) =
    best_local s (if has_prefix s p && ltb best (length p) then length p else best) ps

unfoldable pub is_local_tg : Reflector → ℕ → Bool
is_local_tg r tg =
    let s = to_string tg in
    let best = best_local s 0 r.local_prefixes in
    if best == 0 then false else not (has_longer s best r.all_prefixes)

unfoldable pub has_prefix_route : Reflector → ℕ → Bool
has_prefix_route r tg = any_prefix (to_string tg) r.all_prefixes

unfoldable pub should_relay_inbound : Reflector → ℕ → Bool
should_relay_inbound r tg =
    if is_local_tg r tg then true else if is_cluster_tg r tg then false else has_prefix_route r tg

unfoldable pub every : (Link → Link) → List Link → List Link
every f [] = []
every f (l ∷ ls) = f l ∷ every f ls

unfoldable for_other_links : ℕ → (Link → Link) → List Link → List Link
unfolding every
for_other_links src f [] = []
for_other_links zero f (l ∷ ls) = l ∷ every f ls
for_other_links (suc src) f (l ∷ ls) = f l ∷ for_other_links src f ls

unfoldable pub forward_trunk_audio_to_other_trunks :
    Reflector → ℕ → ℕ → ℕ → Bytes → List Link → List Link
unfolding for_other_links
forward_trunk_audio_to_other_trunks r now src tg samples =
    for_other_links src (on_local_audio r now tg samples)

unfoldable pub forward_trunk_flush_to_other_trunks : Reflector → ℕ → ℕ → ℕ → List Link → List Link
unfolding for_other_links
forward_trunk_flush_to_other_trunks r now src tg = for_other_links src (on_local_flush r now tg)

unfoldable pub forward_trunk_talker_start_to_other_trunks :
    Reflector → ℕ → ℕ → ℕ → Bytes → List Link → List Link
unfolding for_other_links
forward_trunk_talker_start_to_other_trunks r now src tg callsign =
    for_other_links src (on_local_talker_start r now tg callsign)

unfoldable pub forward_trunk_talker_stop_to_other_trunks :
    Reflector → ℕ → ℕ → ℕ → List Link → List Link
unfolding for_other_links
forward_trunk_talker_stop_to_other_trunks r now src tg =
    for_other_links src (on_local_talker_stop r now tg)
