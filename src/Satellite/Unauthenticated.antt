-- ===== src/Satellite/Unauthenticated.antt =====
-- SatelliteLink.cpp: a connection on which no hello passes the check, over any number of frames.
use geu_reflector.Base.{
  ℕ, ◌≡◌, refl, ◌∙◌, ap, ap₂, Bool, true, false, not, ◌&&◌, List, [], ◌∷◌, Option, none, some,
  Bytes, Map, find, ◌==◌, is_empty, Bool-cases, Option-cases, inl, inr, arith,
}
use geu_reflector.Trunk.State.{Reflector, Hello, heartbeat, hello, verify, role_satellite}
use geu_reflector.Wire.Links.{LinkMsg, peer}
use geu_reflector.Nodes.Json.{Json}
use geu_reflector.Satellite.State.{
  SatelliteLink, Parent, at_satellite, update_satellite, resolve_satellite_secret, find_secret,
  secret_or, satellite_rx_cnt_reset,
}
use geu_reflector.Satellite.Frames.{
  SatFrame, bad_header, bad_body, odd_frame, message, may_begin, is_first, has_bad_header,
  refuse_satellite, on_satellite_link_failed, satellite_hello, handle_satellite_msg,
  dispatch_satellite, satellite_frame_received,
}
use geu_reflector.Satellite.Tables.{find-update_other, find-update_self, find-update_none}

abbrev pub has_hello : Option SatelliteLink → Bool
has_hello none = false
has_hello (some l) = l.hello_received

-- Is the satellite of a connection authenticated?
abbrev pub is_admitted : ℕ → Parent → Bool
is_admitted con p = has_hello (find con p.sats)

-- Nothing has come of the frames on a connection: the clients, the talk groups, the trunks, the twin
-- and the other satellites are as they were, and its satellite is not authenticated.
pub record Untouched (con : ℕ) (p p' : Parent) : Type 0 where
  pub hub : p'.hub ≡ p.hub
  pub secrets : p'.satellite_secrets ≡ p.satellite_secrets
  pub secret : p'.satellite_secret ≡ p.satellite_secret
  pub others : (d : ℕ) → (d == con) ≡ false → find d p'.sats ≡ find d p.sats
  pub unadmitted : is_admitted con p' ≡ false

untouched : (con : ℕ) (p : Parent) → is_admitted con p ≡ false → Untouched con p p
untouched con p h = record {
  hub = refl;
  secrets = refl;
  secret = refl;
  others = λ d e. refl;
  unadmitted = h;
}

untouched-then :
    (con : ℕ) (p q r : Parent) → Untouched con p q → Untouched con q r → Untouched con p r
untouched-then con p q r a b = record {
  hub = b.hub ∙ a.hub;
  secrets = b.secrets ∙ a.secrets;
  secret = b.secret ∙ a.secret;
  others = λ d e. b.others d e ∙ a.others d e;
  unadmitted = b.unadmitted;
}

update-has_hello :
    (con : ℕ) (f : SatelliteLink → SatelliteLink) (m : Map SatelliteLink)
    → ((l : SatelliteLink) → (f l).hello_received ≡ l.hello_received)
    → has_hello (find con (update_satellite con f m)) ≡ has_hello (find con m)
update-has_hello con f m k = elim (Option-cases (find con m)) [
  | inl e ↦ rw (find-update_none con f m e, e) refl
  | inr (l, e) ↦ rw (find-update_self con f l m e, e) (k l)
]

-- An update of the link that leaves its `m_hello_received`.
updated :
    (con : ℕ) (f : SatelliteLink → SatelliteLink) (p : Parent)
    → ((l : SatelliteLink) → (f l).hello_received ≡ l.hello_received)
    → is_admitted con p ≡ false
    → Untouched con p (at_satellite con f p)
updated con f p k h = record {
  hub = refl;
  secrets = refl;
  secret = refl;
  others = λ d e. find-update_other con f d p.sats e;
  unadmitted = update-has_hello con f p.sats k ∙ h;
}

refused :
    (con : ℕ) (p : Parent) → is_admitted con p ≡ false → Untouched con p (refuse_satellite con p)
unfolding refuse_satellite on_satellite_link_failed
refused con p h =
    let u = updated con (λ l. record l { is_open = false }) p (λ l. refl) h in
    record {
      hub = u.hub;
      secrets = u.secrets;
      secret = u.secret;
      others = u.others;
      unadmitted = u.unadmitted;
    }

-- Does a hello pass the check of the secret that the parent has for its name?
abbrev pub has_secret : Reflector → Option Bytes → Hello → Bool
has_secret r none h = false
has_secret r (some secret) h = verify r h secret

abbrev pub proves_msg : Reflector → Parent → LinkMsg → Bool
proves_msg r p (peer (hello h)) = has_secret r (resolve_satellite_secret p h.id) h
proves_msg r p m = false

-- Is the frame such a hello?
abbrev pub proves_satellite : Reflector → Parent → SatFrame → Bool
proves_satellite r p bad_header = false
proves_satellite r p (bad_body first) = false
proves_satellite r p odd_frame = false
proves_satellite r p (message m) = proves_msg r p m

-- None of these frames is.
abbrev pub NoneProves : Reflector → Parent → List (ℕ × SatFrame) → Type 0
NoneProves r p [] = Unit
NoneProves r p ((now, f) ∷ fs) = (proves_satellite r p f ≡ false) × NoneProves r p fs

same_secret :
    (p q : Parent) (id : Bytes)
    → q.satellite_secrets ≡ p.satellite_secrets
    → q.satellite_secret ≡ p.satellite_secret
    → resolve_satellite_secret q id ≡ resolve_satellite_secret p id
unfolding resolve_satellite_secret
same_secret p q id a b =
    ap₂ (λ (t : List (Bytes × Bytes)) (d : Bytes). secret_or (find_secret id t) d) a b

proves_msg_same :
    (r : Reflector) (con : ℕ) (p q : Parent) (m : LinkMsg)
    → Untouched con p q
    → proves_msg r q m ≡ proves_msg r p m
proves_msg_same r con p q (peer (hello h)) s =
    ap (λ o. has_secret r o h) (same_secret p q h.id s.secrets s.secret)
proves_msg_same r con p q m s = refl

proves_same :
    (r : Reflector) (con : ℕ) (p q : Parent) (f : SatFrame)
    → Untouched con p q
    → proves_satellite r q f ≡ proves_satellite r p f
proves_same r con p q (message m) s = proves_msg_same r con p q m s
proves_same r con p q f s = refl

NoneProves-same :
    (r : Reflector) (con : ℕ) (p q : Parent) (fs : List (ℕ × SatFrame))
    → Untouched con p q
    → NoneProves r p fs
    → NoneProves r q fs
NoneProves-same r con p q [] s v = tt
NoneProves-same r con p q ((now, f) ∷ fs) s v =
    (proves_same r con p q f s ∙ v.0, NoneProves-same r con p q fs s v.1)

hello-refused :
    (r : Reflector) (con : ℕ) (h : Hello) (p : Parent)
    → has_secret r (resolve_satellite_secret p h.id) h ≡ false
    → is_admitted con p ≡ false
    → Untouched con p (satellite_hello r con h p)
unfolding satellite_hello
hello-refused r con h p v u =
    let no = refused con p u in
    elim (Bool-cases (is_empty h.id)) [
      | inl a ↦ rw a no
      | inr a ↦ elim (Bool-cases (h.role == role_satellite)) [
        | inr b ↦ rw (a, b) no
        | inl b ↦ elim (Option-cases (resolve_satellite_secret p h.id)) [
          | inl c ↦ rw (a, b, c) no
          | inr (secret, c) ↦
              let bad : verify r h secret ≡ false = rw c at v in rw (a, b, c, bad) no
        ]
      ]
    ]

module _ (write : Json → Bytes) (parse_json : Bytes → Option Json) (r : Reflector) where
  first-Untouched :
      (now con : ℕ) (l : SatelliteLink) (m : LinkMsg) (p : Parent)
      → may_begin m ≡ true
      → proves_msg r p m ≡ false
      → is_admitted con p ≡ false
      → Untouched con p (handle_satellite_msg write parse_json r now con l m p)
  unfolding may_begin handle_satellite_msg
  first-Untouched now con l (peer heartbeat) p f v u = untouched con p u
  first-Untouched now con l (peer (hello h)) p f v u = hello-refused r con h p v u
  first-Untouched now con l m p f v u = absurd (ground arith)

  dispatch-Untouched :
      (now con : ℕ) (l : SatelliteLink) (f : SatFrame) (p : Parent)
      → is_first f ≡ true
      → proves_satellite r p f ≡ false
      → is_admitted con p ≡ false
      → Untouched con p (dispatch_satellite write parse_json r now con l f p)
  unfolding dispatch_satellite is_first
  dispatch-Untouched now con l bad_header p f v u = untouched con p u
  dispatch-Untouched now con l (bad_body first) p f v u = untouched con p u
  dispatch-Untouched now con l odd_frame p f v u = untouched con p u
  dispatch-Untouched now con l (message m) p f v u = first-Untouched now con l m p f v u

  frame-Untouched :
      (now con : ℕ) (f : SatFrame) (p : Parent)
      → proves_satellite r p f ≡ false
      → is_admitted con p ≡ false
      → Untouched con p (satellite_frame_received write parse_json r now con f p)
  unfolding satellite_frame_received
  frame-Untouched now con f p v u = elim (Option-cases (find con p.sats)) [
    | inl e ↦ rw (satellite_frame_received, e) (untouched con p u)
    | inr (l, e) ↦
        let waits : l.hello_received ≡ false = rw e at u in
        let q = at_satellite con (λ l'. record l' { hb_rx_cnt = satellite_rx_cnt_reset }) p in
        elim (Bool-cases (has_bad_header f)) [
          | inl a ↦ rw (satellite_frame_received, e, a) (untouched con p u)
          | inr a ↦ elim (Bool-cases (is_first f)) [
            | inr b ↦
                let shut : (not l.hello_received && not (is_first f)) ≡ true = ground arith in
                rw (satellite_frame_received, e, a, shut) (untouched con p u)
            | inl b ↦
                let pass : (not l.hello_received && not (is_first f)) ≡ false = ground arith in
                let s =
                  updated con (λ l'. record l' { hb_rx_cnt = satellite_rx_cnt_reset }) p
                    (λ l'. refl) u in
                rw (satellite_frame_received, e, a, pass)
                  (untouched-then con p q (dispatch_satellite write parse_json r now con l f q) s (
                    dispatch-Untouched now con l f q b (proves_same r con p q f s ∙ v)
                      s.unadmitted))
          ]
        ]
  ]

  -- The frames of one connection, each with the time at which it comes.
  unfoldable pub receive_frames : ℕ → List (ℕ × SatFrame) → Parent → Parent
  receive_frames con [] p = p
  receive_frames con ((now, f) ∷ fs) p =
      receive_frames con fs (satellite_frame_received write parse_json r now con f p)

  -- Whatever frames come on a connection whose satellite is not authenticated: if none of these frames
  -- is a hello that passes the check of the secret that the parent has for the name in it, the
  -- clients, the talk groups, the trunks, the twin and the other satellites are as before, and the
  -- satellite is not authenticated.
  pub receive_frames-Untouched :
      (con : ℕ) (fs : List (ℕ × SatFrame)) (p : Parent)
      → NoneProves r p fs
      → is_admitted con p ≡ false
      → Untouched con p (receive_frames con fs p)
  unfolding receive_frames
  receive_frames-Untouched con [] p v u = untouched con p u
  receive_frames-Untouched con ((now, f) ∷ fs) p v u =
      let q = satellite_frame_received write parse_json r now con f p in
      let s = frame-Untouched now con f p v.0 u in
      untouched-then con p q (receive_frames con fs q) s
        (receive_frames-Untouched con fs q (NoneProves-same r con p q fs s v.1) s.unadmitted)
