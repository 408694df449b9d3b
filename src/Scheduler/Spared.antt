-- ===== src/Scheduler/Spared.antt =====
-- The relation between the events before and after a pass.

use stattii.Base.{
  Bool, Bool-cases, List, String, [], ap, arith, false, find_first, inl, inr, not, refl, some,
  subst, sym, update_first, ◌&&◌, ◌∙◌, ◌∷◌, ◌≡◌,
}
use stattii.Model.{Event, auto_cancels, has_id, is_cancelled}

-- A row that is cancelled now, was not, and never asked for that.
abbrev pub against_will : Event → Event → Bool
against_will e e' =
    is_cancelled e'.status && not (is_cancelled e.status) && not (auto_cancels e.if_unconfirmed)

-- One row before and after.
pub record Spared (e e' : Event) : Type 0 where
  pub same : e'.if_unconfirmed ≡ e.if_unconfirmed
  pub willing : against_will e e' ≡ false

-- Row by row, with none added and none lost.
abbrev pub AllSpared : List Event → List Event → Type 0
AllSpared [] [] = Unit
AllSpared [] (e' ∷ es') = ⊥
AllSpared (e ∷ es) [] = ⊥
AllSpared (e ∷ es) (e' ∷ es') = Spared e e' × AllSpared es es'

pub Spared-refl : (e : Event) → Spared e e
Spared-refl e = record { same = refl; willing = ground arith }

Spared-trans : (a b c : Event) → Spared a b → Spared b c → Spared a c
Spared-trans a b c h k = record {
  same = k.same ∙ h.same;
  willing = ground (arith, h.willing, k.willing, ap auto_cancels h.same);
}

pub AllSpared-refl : (es : List Event) → AllSpared es es
AllSpared-refl [] = tt
AllSpared-refl (e ∷ es) = (Spared-refl e, AllSpared-refl es)

pub AllSpared-trans :
    (as' bs cs : List Event) → AllSpared as' bs → AllSpared bs cs → AllSpared as' cs
AllSpared-trans [] [] [] h k = tt
AllSpared-trans [] [] (c ∷ cs) h k = k
AllSpared-trans [] (b ∷ bs) cs h k = absurd h
AllSpared-trans (a ∷ as') [] cs h k = absurd h
AllSpared-trans (a ∷ as') (b ∷ bs) [] h k = k
AllSpared-trans (a ∷ as') (b ∷ bs) (c ∷ cs) h k =
    (Spared-trans a b c h.0 k.0, AllSpared-trans as' bs cs h.1 k.1)

pub some_event : (a b : Event) → some a ≡ some b → a ≡ b
some_event a b h = cc

-- A write to the row that the search finds.
pub update-AllSpared :
    (id : String) (e e' : Event) (es : List Event)
    → find_first (has_id id) es ≡ some e
    → Spared e e'
    → AllSpared es (update_first (has_id id) (λ _. e') es)
update-AllSpared id e e' [] h s = tt
update-AllSpared id e e' (x ∷ xs) h s = elim (Bool-cases (has_id id x)) [
  | inl hit ↦
      rw hit (subst (λ y. Spared y e') (sym (some_event x e (rw hit at h))) s, AllSpared-refl xs)
  | inr miss ↦ rw miss (Spared-refl x, update-AllSpared id e e' xs (rw miss at h) s)
]
