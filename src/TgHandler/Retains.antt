-- ===== src/TgHandler/Retains.antt =====
-- The talker operations of TGHandler.cpp change the data of talk groups, never who is in them.
use geu_reflector.Base.{
  ℕ, ◌+◌, ltb, ◌&&◌, not, ◌≡◌, refl, subst, ◌∙◌, Bool, Option, none, some, NatSet, find,
  find-assign, inl, inr, Option-cases, Bool-cases, if◌then◌else◌, ◌==◌, is_some, arith,
}
use geu_reflector.TgHandler.State.{
  TgInfo, TgHandler, put_info, emit, talker_updated, seconds, same_client,
}
use geu_reflector.TgHandler.Talkers.{auto_qsy, change_talker, qsy_due, qsy_unset, set_talker_for_tg}
use geu_reflector.TgHandler.Consistent.{IsConsistent}

-- The id and the clients of an entry.
abbrev pub membership : Option TgInfo → Option (ℕ × NatSet)
membership none = none
membership (some i) = some (i.id, i.clients)

pub record Retains (s t : TgHandler) : Type 0 where
  pub infos : (tg : ℕ) → membership (find tg t.id_map) ≡ membership (find tg s.id_map)
  pub pointers : t.client_map ≡ s.client_map

pub Retains-refl : (s : TgHandler) → Retains s s
Retains-refl s = record { infos = λ tg. refl; pointers = refl }

pub Retains-trans : {s t u : TgHandler} → Retains s t → Retains t u → Retains s u
Retains-trans p q = record {
  infos = λ tg. q.infos tg ∙ p.infos tg;
  pointers = q.pointers ∙ p.pointers;
}

-- The `auto_qsy_time` that a talker change leaves behind.
abbrev pub next_qsy_time : ℕ → Bool → TgInfo → Option ℕ
next_qsy_time now stopped i =
    if ltb 0 i.auto_qsy_after_s
    then if stopped && qsy_due (seconds now) i.auto_qsy_time
      then some (seconds now + i.auto_qsy_after_s)
      else if qsy_unset i.auto_qsy_time
      then some (seconds now + i.auto_qsy_after_s)
      else i.auto_qsy_time
    else i.auto_qsy_time

-- What `setTalkerForTG` makes of the entry of its talk group.
abbrev pub with_talker : ℕ → ℕ → Option ℕ → TgInfo → TgInfo
with_talker now sql_timeout talker i =
    if same_client talker i.talker then record i { last_talker_timestamp = now } else record i {
      sql_timeout_cnt = if is_some talker then sql_timeout else 0;
      talker = talker;
      talker_start_timestamp = if is_some talker then now else i.talker_start_timestamp;
      auto_qsy_time = next_qsy_time now (not (is_some talker)) i;
    }

abbrev pub updated : (TgInfo → TgInfo) → Option TgInfo → Option TgInfo
updated f none = none
updated f (some i) = some (f i)

auto_qsy_lem :
    (now tg t : ℕ) (i : TgInfo) (b : Bool) (s : TgHandler)
    → find tg s.id_map ≡ some i
    → find t (auto_qsy now tg i b s).id_map ≡ (
        if t == tg
        then some (record i { auto_qsy_time = next_qsy_time now b i })
        else find t s.id_map)
unfolding auto_qsy
auto_qsy_lem now tg t i b s e = ground (
  arith,
  find-assign tg t (record i { auto_qsy_time = some (seconds now + i.auto_qsy_after_s) }) s.id_map,
)

set_talker_live :
    (now tg t : ℕ) (talker : Option ℕ) (s : TgHandler) (i : TgInfo)
    → find tg s.id_map ≡ some i
    → find t (set_talker_for_tg now tg talker s).id_map
      ≡ (if t == tg then some (with_talker now s.sql_timeout talker i) else find t s.id_map)
unfolding set_talker_for_tg
set_talker_live now tg t talker s i e =
    let i' = change_talker now s.sql_timeout talker i in
    let s' = emit (talker_updated tg i.talker talker) (put_info tg i' s) in
    elim (Bool-cases (same_client talker i.talker)) [
      | inl same ↦
          rw (e, same, set_talker_for_tg)
            (find-assign tg t (record i { last_talker_timestamp = now }) s.id_map)
      | inr new ↦
          rw (e, new, set_talker_for_tg)
            (ground (
              arith,
              auto_qsy_lem now tg t i' (not (is_some talker)) s',
              find-assign tg t i' s.id_map,
              find-assign tg tg i' s.id_map,
            ))
    ]

-- The new map, entry by entry.
pub find-set_talker_for_tg :
    (now tg t : ℕ) (talker : Option ℕ) (s : TgHandler)
    → find t (set_talker_for_tg now tg talker s).id_map ≡ (
        if t == tg
        then updated (with_talker now s.sql_timeout talker) (find tg s.id_map)
        else find t s.id_map)
unfolding set_talker_for_tg
find-set_talker_for_tg now tg t talker s = elim (Option-cases (find tg s.id_map)) [
  | inl e ↦ rw (e, set_talker_for_tg) (ground arith)
  | inr (i, e) ↦ set_talker_live now tg t talker s i e ∙ rw e
]

client_map-set_talker_for_tg :
    (now tg : ℕ) (talker : Option ℕ) (s : TgHandler)
    → (set_talker_for_tg now tg talker s).client_map ≡ s.client_map
unfolding set_talker_for_tg auto_qsy
client_map-set_talker_for_tg now tg talker s = ground arith

membership-with_talker :
    (now timeout : ℕ) (talker : Option ℕ) (o : Option TgInfo)
    → membership (updated (with_talker now timeout talker) o) ≡ membership o
membership-with_talker now timeout talker none = refl
membership-with_talker now timeout talker (some i) = ground arith

pub set_talker_for_tg-Retains :
    (now tg : ℕ) (talker : Option ℕ) (s : TgHandler) → Retains s (set_talker_for_tg now tg talker s)
set_talker_for_tg-Retains now tg talker s = record {
  infos = λ t. ground (
    arith,
    find-set_talker_for_tg now tg t talker s,
    membership-with_talker now s.sql_timeout talker (find tg s.id_map),
  );
  pointers = client_map-set_talker_for_tg now tg talker s;
}

pub Retains-IsConsistent : {s t : TgHandler} → Retains s t → IsConsistent s → IsConsistent t
Retains-IsConsistent {s} {t} r v = record {
  agree = λ c u. ground (arith, r.infos u, v.agree c u, r.pointers);
  named = λ u. ground (arith, r.infos u, v.named u);
}

-- A step that rewrites the entry of one talk group and nothing else that other steps read.
pub record Updates (tg : ℕ) (o : Option TgInfo) (s t : TgHandler) : Type 0 where
  pub entries : (u : ℕ) → find u t.id_map ≡ (if u == tg then o else find u s.id_map)
  pub pointers : t.client_map ≡ s.client_map
  pub timeout : t.sql_timeout ≡ s.sql_timeout

pub Updates-refl : (tg : ℕ) (s : TgHandler) → Updates tg (find tg s.id_map) s s
Updates-refl tg s = record { entries = λ u. ground arith; pointers = refl; timeout = refl }

pub Updates-of_eq :
    {tg : ℕ} {o p : Option TgInfo} {s t : TgHandler} → o ≡ p → Updates tg o s t → Updates tg p s t
Updates-of_eq {tg} {o} {p} {s} {t} e u = subst (λ x. Updates tg x s t) e u

pub Updates-trans :
    {tg : ℕ} {o p : Option TgInfo} {s t u : TgHandler}
    → Updates tg o s t
    → Updates tg p t u
    → Updates tg p s u
Updates-trans a b = record {
  entries = λ v. ground (arith, a.entries v, b.entries v);
  pointers = b.pointers ∙ a.pointers;
  timeout = b.timeout ∙ a.timeout;
}

pub put_info-Updates :
    (tg : ℕ) (i : TgInfo) (s : TgHandler) → Updates tg (some i) s (put_info tg i s)
put_info-Updates tg i s = record {
  entries = λ u. find-assign tg u i s.id_map;
  pointers = refl;
  timeout = refl;
}

timeout-set_talker_for_tg :
    (now tg : ℕ) (talker : Option ℕ) (s : TgHandler)
    → (set_talker_for_tg now tg talker s).sql_timeout ≡ s.sql_timeout
unfolding set_talker_for_tg auto_qsy
timeout-set_talker_for_tg now tg talker s = ground arith

pub set_talker_for_tg-Updates :
    (now tg : ℕ) (talker : Option ℕ) (s : TgHandler)
    → Updates tg
        (updated (with_talker now s.sql_timeout talker) (find tg s.id_map))
        s
        (set_talker_for_tg now tg talker s)
set_talker_for_tg-Updates now tg talker s = record {
  entries = λ u. find-set_talker_for_tg now tg u talker s;
  pointers = client_map-set_talker_for_tg now tg talker s;
  timeout = timeout-set_talker_for_tg now tg talker s;
}
