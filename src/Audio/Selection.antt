-- ===== src/Audio/Selection.antt =====
-- ReflectorClient.cpp: a client selects a talk group, and the talk groups that it monitors. What is
-- only shown is left out, and so are the updates that the reflector schedules.
use geu_reflector.Base.{
  ℕ, ◌≡◌, refl, sym, ap, ◌∙◌, Bool, true, false, Option, none, some, NatSet, find, if◌then◌else◌,
  ◌==◌, value_or, Bool-cases, inl, inr, arith, ==_self,
}
use geu_reflector.TgHandler.State.{TgHandler, Config}
use geu_reflector.TgHandler.Members.{switch_to}
use geu_reflector.TgHandler.Consistent.{IsConsistent}
use geu_reflector.TgHandler.Placement.{select, intended, Refines, select-Refines}
use geu_reflector.TgHandler.Refinement.{tg_for_client-placement}
use geu_reflector.Audio.Filters.{Client, tg_of}

unfoldable pub set_monitored_tgs : NatSet → Client → Client
set_monitored_tgs tgs c = record c { monitored_tgs = tgs }

-- The talk group is given up where it is not allowed: `none` is a dangling pointer.
unfoldable pub give_up : Config → ℕ → Client → TgHandler → Option (Client × TgHandler)
give_up cfg client c h = elim (switch_to cfg client 0 h) [
  | none ↦ none
  | some (ok, h') ↦ some (record c { current_tg = 0 }, h')
]

unfoldable pub set_tg : Config → ℕ → ℕ → Client → TgHandler → Option (Client × TgHandler)
set_tg cfg client tg c h =
    if tg == c.current_tg then some (c, h) else elim (switch_to cfg client tg h) [
      | none ↦ none
      | some (true, h') ↦ some (record c { current_tg = tg }, h')
      | some (false, h') ↦ give_up cfg client c h'
    ]

-- The client and the handler agree on where the client is.
pub record Agrees (client : ℕ) (p : Client × TgHandler) : Type 0 where
  pub consistent : IsConsistent p.1
  pub current : p.0.current_tg ≡ tg_of client p.1

placed :
    (client tg : ℕ) (h : TgHandler) (r : Bool × TgHandler)
    → Refines (select client tg) h r
    → tg_of client r.1 ≡ (if r.0 then tg else 0)
unfolding intended
placed client tg h r k =
    let there : find client r.1.client_map
        ≡ (if r.0 then (if tg == 0 then none else some tg) else none) =
      k.places client ∙ rw (==_self client) refl in
    ap (λ o. value_or o 0) (tg_for_client-placement client r.1 k.consistent)
    ∙ ap (λ o. value_or o 0) there
    ∙ ground arith

give_up-Agrees :
    (cfg : Config) (client : ℕ) (c : Client) (h : TgHandler)
    → IsConsistent h
    → (p : Client × TgHandler) × (give_up cfg client c h ≡ some p) × Agrees client p
unfolding give_up
give_up-Agrees cfg client c h v =
    let ((ok, h'), e, k) = select-Refines cfg client 0 h v in
    (
      (record c { current_tg = 0 }, h'),
      rw (give_up, e) refl,
      record {
        consistent = k.consistent;
        current = sym (placed client 0 h (ok, h') k ∙ ground arith);
      },
    )

selected-Agrees :
    (cfg : Config) (client tg : ℕ) (c : Client) (h h' : TgHandler) (ok : Bool)
    → (tg == c.current_tg) ≡ false
    → switch_to cfg client tg h ≡ some (ok, h')
    → Refines (select client tg) h (ok, h')
    → (p : Client × TgHandler) × (set_tg cfg client tg c h ≡ some p) × Agrees client p
unfolding set_tg
selected-Agrees cfg client tg c h h' true new e k = (
  (record c { current_tg = tg }, h'),
  rw (set_tg, new, e) refl,
  record { consistent = k.consistent; current = sym (placed client tg h (true, h') k) },
)
selected-Agrees cfg client tg c h h' false new e k =
    let (p, e', b) = give_up-Agrees cfg client c h' k.consistent in (p, rw (set_tg, new, e) e', b)

-- Selecting a talk group gives a result, after which the talk group that the client holds as its own
-- is the one that the handler has it in, where that was so before and the handler is consistent.
set_tg-Agrees :
    (cfg : Config) (client tg : ℕ) (c : Client) (h : TgHandler)
    → Agrees client (c, h)
    → (p : Client × TgHandler) × (set_tg cfg client tg c h ≡ some p) × Agrees client p
unfolding set_tg
set_tg-Agrees cfg client tg c h a = elim (Bool-cases (tg == c.current_tg)) [
  | inl same ↦ ((c, h), rw (set_tg, same) refl, a)
  | inr new ↦
      let ((ok, h'), e, k) = select-Refines cfg client tg h a.consistent in
      selected-Agrees cfg client tg c h h' ok new e k
]
