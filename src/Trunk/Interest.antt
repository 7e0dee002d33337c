-- ===== src/Trunk/Interest.antt =====
-- TrunkLink.cpp and Reflector.cpp: the talk groups that reflectors advertise to each other.
use geu_reflector.Base.{
  ℕ, ◌-◌, Bool, true, false, not, ◌&&◌, ◌||◌, ◌==◌, List, [], ◌∷◌, Map, NatSet, insert, assign, leb,
  if◌then◌else◌,
}
use geu_reflector.Trunk.Prefixes.{is_shared_tg}
use geu_reflector.Trunk.State.{
  Link, do_effect, interest_update, tg_interest, map_tg_in, map_tg_out, is_active, is_blacklisted,
  is_allowed, peer_interest_timeout_s,
}
use geu_reflector.Trunk.Send.{send_msg}

-- The loop of `handleMsgPeerTgInterest`, `now` in seconds.
unfoldable pub note_interest : ℕ → List ℕ → Link → Link
note_interest now [] l = l
note_interest now (wire_tg ∷ tgs) l =
    let local_tg = map_tg_in l wire_tg in
    note_interest now tgs (
      if local_tg == 0
      then l
      else record l { peer_interested_tgs = assign local_tg now l.peer_interested_tgs })

unfoldable pub handle_msg_peer_tg_interest : ℕ → List ℕ → Link → Link
handle_msg_peer_tg_interest now tgs l = do_effect interest_update (note_interest now tgs l)

unfoldable pub schedule_tg_interest_refresh : NatSet → Link → Link
schedule_tg_interest_refresh local_interest l =
    let l' = record l { local_tg_interest = local_interest } in
    if not (is_active l') then l' else record l' { tg_interest_debounce = true }

-- The lambda `include` of `buildOutgoingTgInterest`.
unfoldable pub include : Link → ℕ → Bool
include l tg =
    if tg == 0
    then false
    else if is_blacklisted l tg || not (is_allowed l tg)
    then false
    else is_shared_tg l.routes tg

unfoldable pub include_all : Link → List ℕ → NatSet → NatSet
include_all l [] out = out
include_all l (tg ∷ tgs) out = include_all l tgs (if include l tg then insert tg out else out)

-- The loop of `aggregatePeerInterestsForLink` over one other link.
unfoldable pub aggregate_one : ℕ → Link → Map ℕ → NatSet → NatSet
aggregate_one now dest [] out = out
aggregate_one now dest ((tg, ts) ∷ m) out = aggregate_one now dest m (
    if leb peer_interest_timeout_s (now - ts)
    then out
    else if not (is_shared_tg dest.routes tg)
    then out
    else insert tg out)

-- `others` are the links of the reflector but `dest`.
unfoldable pub aggregate_peer_interests_for_link : ℕ → Link → List Link → NatSet → NatSet
aggregate_peer_interests_for_link now dest [] out = out
aggregate_peer_interests_for_link now dest (k ∷ others) out =
    aggregate_peer_interests_for_link now dest others
      (aggregate_one now dest k.peer_interested_tgs out)

unfoldable pub build_outgoing_tg_interest : ℕ → List Link → Link → NatSet
build_outgoing_tg_interest now others l =
    include_all l (aggregate_peer_interests_for_link now l others [])
      (include_all l l.local_tg_interest [])

unfoldable pub same_set : NatSet → NatSet → Bool
same_set [] [] = true
same_set [] (y ∷ ys) = false
same_set (x ∷ xs) [] = false
same_set (x ∷ xs) (y ∷ ys) = x == y && same_set xs ys

unfoldable pub map_all_out : Link → List ℕ → List ℕ
map_all_out l [] = []
map_all_out l (tg ∷ tgs) = map_tg_out l tg ∷ map_all_out l tgs

unfoldable pub send_tg_interest : ℕ → List Link → Bool → Link → Link
send_tg_interest now others force l =
    let outgoing = build_outgoing_tg_interest now others l in
    if not (is_active l)
    then l
    else if not force && same_set outgoing l.last_sent_tg_interest
    then l
    else record (send_msg (tg_interest l.peer_id_config (map_all_out l outgoing)) l) {
      last_sent_tg_interest = outgoing;
    }

unfoldable pub on_tg_interest_timer : ℕ → List Link → Link → Link
on_tg_interest_timer now others l = send_tg_interest now others true l

unfoldable pub on_tg_interest_debounce : ℕ → List Link → Link → Link
on_tg_interest_debounce now others l =
    send_tg_interest now others false (record l { tg_interest_debounce = false })
