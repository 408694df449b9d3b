-- ===== src/Import/Standing.antt =====
-- The relation between the events before and after a fetch of the source calendar.

use stattii.Base.{
  All, Bool, Bool-cases, List, String, [], false, find_first, inl, inr, refl, some, subst, sym,
  update_first, ◌++◌, ◌∙◌, ◌∷◌, ◌≡◌,
}
use stattii.Model.{Event, has_id, is_cancelled}
use stattii.Scheduler.Spared.{some_event}

-- One row before and after: it is cancelled now exactly if it was, and keeps its id, its note and
-- its choice of what silence means.
pub record Held (e e' : Event) : Type 0 where
  pub id : e'.id ≡ e.id
  pub cancelled : is_cancelled e'.status ≡ is_cancelled e.status
  pub note : e'.note ≡ e.note
  pub if_unconfirmed : e'.if_unconfirmed ≡ e.if_unconfirmed

abbrev pub IsLive : Event → Type 0
IsLive e = is_cancelled e.status ≡ false

-- Row by row, with live events added at the end only.
abbrev pub AllHeld : List Event → List Event → Type 0
AllHeld [] es' = All IsLive es'
AllHeld (e ∷ es) [] = ⊥
AllHeld (e ∷ es) (e' ∷ es') = Held e e' × AllHeld es es'

pub Held-refl : (e : Event) → Held e e
Held-refl e = record { id = refl; cancelled = refl; note = refl; if_unconfirmed = refl }

Held-trans : (a b c : Event) → Held a b → Held b c → Held a c
Held-trans a b c h k = record {
  id = k.id ∙ h.id;
  cancelled = k.cancelled ∙ h.cancelled;
  note = k.note ∙ h.note;
  if_unconfirmed = k.if_unconfirmed ∙ h.if_unconfirmed;
}

pub AllHeld-refl : (es : List Event) → AllHeld es es
AllHeld-refl [] = tt
AllHeld-refl (e ∷ es) = (Held-refl e, AllHeld-refl es)

IsLive-AllHeld : (es fs : List Event) → All IsLive es → AllHeld es fs → All IsLive fs
IsLive-AllHeld [] fs h k = k
IsLive-AllHeld (e ∷ es) [] h k = absurd k
IsLive-AllHeld (e ∷ es) (f ∷ fs) h k = (k.0.cancelled ∙ h.0, IsLive-AllHeld es fs h.1 k.1)

pub AllHeld-trans : (ds es fs : List Event) → AllHeld ds es → AllHeld es fs → AllHeld ds fs
AllHeld-trans [] es fs h k = IsLive-AllHeld es fs h k
AllHeld-trans (d ∷ ds) [] fs h k = absurd h
AllHeld-trans (d ∷ ds) (e ∷ es) [] h k = absurd k
AllHeld-trans (d ∷ ds) (e ∷ es) (f ∷ fs) h k =
    (Held-trans d e f h.0 k.0, AllHeld-trans ds es fs h.1 k.1)

-- A write that holds whatever row it meets.
pub update-AllHeld :
    (p : Event → Bool) (f : Event → Event) (es : List Event)
    → ((e : Event) → Held e (f e))
    → AllHeld es (update_first p f es)
update-AllHeld p f [] h = tt
update-AllHeld p f (e ∷ es) h = elim (Bool-cases (p e)) [
  | inl hit ↦ rw hit (h e, AllHeld-refl es)
  | inr miss ↦ rw miss (Held-refl e, update-AllHeld p f es h)
]

-- A write to the row that the search finds.
pub update-AllHeld_found :
    (id : String) (e e' : Event) (es : List Event)
    → find_first (has_id id) es ≡ some e
    → Held e e'
    → AllHeld es (update_first (has_id id) (λ _. e') es)
update-AllHeld_found id e e' [] h s = tt
update-AllHeld_found id e e' (x ∷ xs) h s = elim (Bool-cases (has_id id x)) [
  | inl hit ↦
      rw hit (subst (λ y. Held y e') (sym (some_event x e (rw hit at h))) s, AllHeld-refl xs)
  | inr miss ↦ rw miss (Held-refl x, update-AllHeld_found id e e' xs (rw miss at h) s)
]

pub append-AllHeld : (es : List Event) (e : Event) → IsLive e → AllHeld es (es ++ e ∷ [])
append-AllHeld [] e h = (h, tt)
append-AllHeld (x ∷ xs) e h = (Held-refl x, append-AllHeld xs e h)
