-- ===== src/Audio/Delivery.antt =====
-- Reflector.cpp: the first to speak in a talk group is heard by the others there.
use geu_reflector.Base.{
  ℕ, ◌≡◌, refl, sym, ap, ◌∙◌, Bool, true, false, ◌&&◌, List, [], ◌∷◌, Option, none, some, Map,
  NatSet, find, ◌==◌, if◌then◌else◌, Elem, Bool-cases, inl, inr,
}
use geu_reflector.TgHandler.State.{TgHandler, TgInfo, same_client}
use geu_reflector.TgHandler.Talkers.{set_talker_for_tg}
use geu_reflector.Trunk.State.{Reflector, Link}
use geu_reflector.Audio.Filters.{Client, Filter, passes_filter}
use geu_reflector.Audio.Broadcast.{
  Hub, HubCall, broadcast, broadcast_from, for_satellites, pass_on, talker_stopped, talker_started,
  announce_talker, on_talker_updated, set_talker,
}

-- The clients and the talk groups stay, and what was sent stays sent.
pub record Kept (s s' : Hub) : Type 0 where
  pub clients : s'.clients ≡ s.clients
  pub tgs : s'.tgs ≡ s.tgs
  pub calls : (x : HubCall) → Elem x s.calls → Elem x s'.calls

pub Kept-refl : (s : Hub) → Kept s s
Kept-refl s = record { clients = refl; tgs = refl; calls = λ x e. e }

pub Kept-trans : {s t u : Hub} → Kept s t → Kept t u → Kept s u
Kept-trans p q = record {
  clients = q.clients ∙ p.clients;
  tgs = q.tgs ∙ p.tgs;
  calls = λ x e. q.calls x (p.calls x e);
}

broadcast_from-old :
    (h : TgHandler) (make : ℕ → HubCall) (f : Filter) (m : Map Client) (calls : List HubCall)
    (x : HubCall)
    → Elem x calls
    → Elem x (broadcast_from h make f m calls)
unfolding broadcast_from
broadcast_from-old h make f [] calls x e = e
broadcast_from-old h make f ((client, c) ∷ m) calls x e =
    elim (Bool-cases (passes_filter h f client c && c.is_connected)) [
      | inl hit ↦ rw hit (broadcast_from-old h make f m (make client ∷ calls) x (inr e))
      | inr miss ↦ rw miss (broadcast_from-old h make f m calls x e)
    ]

pub broadcast_from-new :
    (h : TgHandler) (make : ℕ → HubCall) (f : Filter) (m : Map Client) (calls : List HubCall)
    (d : ℕ) (c : Client)
    → Elem (d, c) m
    → passes_filter h f d c ≡ true
    → c.is_connected ≡ true
    → Elem (make d) (broadcast_from h make f m calls)
unfolding broadcast_from
broadcast_from-new h make f [] calls d c e p up = elim e [ ]
broadcast_from-new h make f ((client, k) ∷ m) calls d c (inl e) p up =
    let same : client ≡ d = ap (λ q. q.0) (sym e) in
    let same_c : k ≡ c = ap (λ q. q.1) (sym e) in
    rw (same, same_c, p, up) (broadcast_from-old h make f m (make d ∷ calls) (make d) (inl refl))
broadcast_from-new h make f ((client, k) ∷ m) calls d c (inr e) p up =
    broadcast_from-new h make f m _ d c e p up

broadcast-Kept : (make : ℕ → HubCall) (f : Filter) (s : Hub) → Kept s (broadcast make f s)
unfolding broadcast
broadcast-Kept make f s = record {
  clients = refl;
  tgs = refl;
  calls = λ x e. broadcast_from-old s.tgs make f s.clients s.calls x e;
}

for_satellites-old :
    (make : ℕ → HubCall) (sats : NatSet) (calls : List HubCall) (x : HubCall)
    → Elem x calls
    → Elem x (for_satellites make sats calls)
unfolding for_satellites
for_satellites-old make [] calls x e = e
for_satellites-old make (sat ∷ sats) calls x e =
    for_satellites-old make sats (make sat ∷ calls) x (inr e)

pub pass_on-Kept :
    (p : HubCall) (l : Link → Link) (sat : ℕ → HubCall) (t : HubCall) (s : Hub)
    → Kept s (pass_on p l sat t s)
unfolding pass_on
pass_on-Kept p l sat t s = elim (Bool-cases s.is_satellite) [
  | inl e ↦ rw e (record { clients = refl; tgs = refl; calls = λ x h. inr h })
  | inr e ↦ elim (Bool-cases s.has_twin) [
    | inl w ↦
        rw (e, w)
          (record {
            clients = refl;
            tgs = refl;
            calls = λ x h. inr (for_satellites-old sat s.satellites s.calls x h);
          })
    | inr w ↦
        rw (e, w)
          (record {
            clients = refl;
            tgs = refl;
            calls = λ x h. for_satellites-old sat s.satellites s.calls x h;
          })
  ]
]

-- A broadcast that is made under a condition.
maybe-Kept : (b : Bool) (s t : Hub) → Kept s t → Kept s (if b then t else s)
maybe-Kept true s t k = k
maybe-Kept false s t k = Kept-refl s

talker_stopped-Kept : (tg : ℕ) (old : Option ℕ) (s : Hub) → Kept s (talker_stopped tg old s)
unfolding talker_stopped
talker_stopped-Kept tg none s = Kept-refl s
talker_stopped-Kept tg (some c) s =
    Kept-trans
      (Kept-trans (broadcast-Kept _ _ s)
        (maybe-Kept (tg == s.tg_for_v1_clients) _ _ (broadcast-Kept _ _ _)))
      (broadcast-Kept _ _ _)

talker_started-Kept : (tg : ℕ) (new : Option ℕ) (s : Hub) → Kept s (talker_started tg new s)
unfolding talker_started
talker_started-Kept tg none s = Kept-refl s
talker_started-Kept tg (some c) s =
    Kept-trans (broadcast-Kept _ _ s)
      (maybe-Kept (tg == s.tg_for_v1_clients) _ _ (broadcast-Kept _ _ _))

announce_talker-Kept :
    (r : Reflector) (now tg : ℕ) (new : Option ℕ) (s : Hub)
    → Kept s (announce_talker r now tg new s)
unfolding announce_talker
announce_talker-Kept r now tg none s = pass_on-Kept _ _ _ _ s
announce_talker-Kept r now tg (some c) s = pass_on-Kept _ _ _ _ s

on_talker_updated-Kept :
    (r : Reflector) (now tg : ℕ) (old new : Option ℕ) (s : Hub)
    → Kept s (on_talker_updated r now tg old new s)
unfolding on_talker_updated
on_talker_updated-Kept r now tg old new s = Kept-trans (talker_stopped-Kept tg old s) (
    Kept-trans (talker_started-Kept tg new (talker_stopped tg old s))
      (announce_talker-Kept r now tg new _))

-- The handler after `setTalkerForTG`, with the clients as they were.
pub record Set (now tg : ℕ) (talker : Option ℕ) (s s' : Hub) : Type 0 where
  pub clients : s'.clients ≡ s.clients
  pub tgs : s'.tgs ≡ set_talker_for_tg now tg talker s.tgs

pub set_talker-Set :
    (r : Reflector) (now tg : ℕ) (talker : Option ℕ) (s : Hub) (i : TgInfo)
    → find tg s.tgs.id_map ≡ some i
    → Set now tg talker s (set_talker r now tg talker s)
unfolding set_talker
set_talker-Set r now tg talker s i e = elim (Bool-cases (same_client talker i.talker)) [
  | inl same ↦ rw (set_talker, e, same) (record { clients = refl; tgs = refl })
  | inr new ↦
      let k =
        on_talker_updated-Kept r now tg i.talker talker
          (record s { tgs = set_talker_for_tg now tg talker s.tgs }) in
      rw (set_talker, e, new) (record { clients = k.clients; tgs = k.tgs })
]
