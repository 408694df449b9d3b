-- ===== src/Import/Merging.antt =====
-- What one occurrence of SyncCalendar does to the events.

use stattii.Base.{
  Bool, Bool-cases, List, Option, Result, String, [], ap, eq_iff, eqb, err, false, find_first,
  find_first-holds, inl, inr, ltb, none, not, ok, refl, some, subst, sym, true, update_first, ℕ,
  ◌&&◌, ◌==◌, ◌||◌, ◌∙◌, ◌∷◌, ◌≡◌,
}
use stattii.Import.Held.{
  HeldBy, HeldBy-refl, HeldBy-trans, import_new-HeldBy, refreshed-Held, retitled-Held,
  unmarked-Held, write_audit-HeldBy, write_row-HeldBy,
}
use stattii.Import.Occurrences.{
  event_by_source_key, has_source_key, import_each, import_found, import_live, import_moved,
  import_quiet, reappear, refreshed, retitled, title_of, unmarked,
}
use stattii.Import.Standing.{AllHeld, Held, update-AllHeld_found}
use stattii.Lifecycle.{move_locked, moved_row}
use stattii.Lifecycle.Branches.{MoveFound, MoveOutcome, MovesRow, move_locked-outcome}
use stattii.Lifecycle.Transactions.{NamedTxns}
use stattii.Model.{Event, ImportReport, Occurrence, Tables, event, has_id, is_cancelled, is_zero}
use stattii.Service.{Context, Fields, Service}

move_row-HeldBy :
    (done : Bool) (e : Event) (id : String) (start end : ℕ) (w : Service)
    (r : Result Event × Service)
    → find_first (has_id id) w.tables.events ≡ some e
    → is_cancelled e.status ≡ done
    → MovesRow done e start end "" w r
    → HeldBy w r.1
unfolding moved_row
move_row-HeldBy true e id start end w r h off c =
    subst (λ (x : Result Event × Service). HeldBy w x.1) (sym c) (HeldBy-refl w)
move_row-HeldBy false e id start end w r h off (row, done, c, t) =
    let es = w.tables.events in
    let named : row.id ≡ id =
      ap (λ (x : Event). x.id) t.recorded
      ∙ (eq_iff e.id id).0 (find_first-holds (has_id id) es h) in
    let held : Held e row = record {
      id = ap (λ (x : Event). x.id) t.recorded;
      cancelled = ap (λ (x : Event). is_cancelled x.status) t.recorded ∙ sym off;
      note = ap (λ (x : Event). x.note) t.recorded;
      if_unconfirmed = ap (λ (x : Event). x.if_unconfirmed) t.recorded;
    } in
    (
      t.ctx,
      subst (λ (s : Tables). AllHeld es s.events) (sym t.tables)
          (subst (λ i. AllHeld es (update_first (has_id i) (λ _. row) es)) (sym named)
            (update-AllHeld_found id e row es h held)),
    )

MoveFound-HeldBy :
    (found : Option Event) (id : String) (start end : ℕ) (w : Service) (r : Result Event × Service)
    → find_first (has_id id) w.tables.events ≡ found
    → MoveFound found start end "" w r
    → HeldBy w r.1
MoveFound-HeldBy none id start end w r h c =
    subst (λ (x : Result Event × Service). HeldBy w x.1) (sym c) (HeldBy-refl w)
MoveFound-HeldBy (some e) id start end w r h c =
    move_row-HeldBy (is_cancelled e.status) e id start end w r h refl c

MoveOutcome-HeldBy :
    (zero_start backwards : Bool) (id : String) (start end : ℕ) (w : Service)
    (r : Result Event × Service)
    → MoveOutcome zero_start backwards (event w.tables id) start end "" w r
    → HeldBy w r.1
MoveOutcome-HeldBy true backwards id start end w r c =
    subst (λ (x : Result Event × Service). HeldBy w x.1) (sym c) (HeldBy-refl w)
MoveOutcome-HeldBy false true id start end w r c =
    subst (λ (x : Result Event × Service). HeldBy w x.1) (sym c) (HeldBy-refl w)
MoveOutcome-HeldBy false false id start end w r c =
    MoveFound-HeldBy (event w.tables id) id start end w r refl c

import_moved-HeldBy :
    (e : Event) (o : Occurrence) (rep : ImportReport) (r : Result Event × Service)
    → HeldBy r.1 (import_moved e o rep r).1
unfolding import_moved
import_moved-HeldBy e o rep (err x, w) = HeldBy-refl w
import_moved-HeldBy e o rep (ok row, w) =
    write_row-HeldBy (has_source_key o.key) (retitled o) w (retitled-Held o)

import_quiet-HeldBy :
    (e : Event) (ends : Fields) (o : Occurrence) (rep : ImportReport) (w : Service)
    → HeldBy w (import_quiet e ends o rep w).1
unfolding import_quiet
import_quiet-HeldBy e ends o rep w =
    write_audit-HeldBy (has_source_key o.key) (refreshed o) "import.updated" _ w (refreshed-Held o)

import_live-HeldBy :
    (e : Event) (o : Occurrence) (rep : ImportReport) (w : Service)
    → NamedTxns w.env
    → HeldBy w (import_live e o rep w).1
unfolding import_live
import_live-HeldBy e o rep w named = elim (Bool-cases (not (eqb e.starts_at o.start))) [
  | inl shifted ↦
      let r = move_locked e.id o.start o.finish "" "import" w in
      rw (shifted, import_live)
        (HeldBy-trans w r.1 (import_moved e o rep r).1
          (MoveOutcome-HeldBy (is_zero o.start) (not (is_zero o.finish) && ltb o.finish o.start)
            e.id o.start o.finish w r
            (move_locked-outcome e.id o.start o.finish "" "import" w named))
          (import_moved-HeldBy e o rep r))
  | inr level ↦
      rw (level, import_live)
        (elim (Bool-cases (not (eqb e.ends_at o.finish))) [
          | inl longer ↦ rw longer (import_quiet-HeldBy e _ o rep w)
          | inr alike ↦
              rw alike
                (elim (Bool-cases (not (e.title == title_of o) || not (e.location == o.location))) [
                  | inl renamed ↦ rw renamed (import_quiet-HeldBy e [] o rep w)
                  | inr same ↦ rw same (HeldBy-refl w)
                ])
        ])
]

reappear-HeldBy : (e : Event) (w : Service) → HeldBy w (reappear e w).1
unfolding reappear
reappear-HeldBy e w = elim (Bool-cases (is_zero e.vanished_at)) [
  | inl seen ↦ rw (seen, reappear) (HeldBy-refl w)
  | inr back ↦
      rw (back, reappear)
        (write_audit-HeldBy (has_source_key e.source_key) unmarked "import.reappeared" _ w
          unmarked-Held)
]

import_found-HeldBy :
    (found : Option Event) (o : Occurrence) (rep : ImportReport) (w : Service)
    → NamedTxns w.env
    → HeldBy w (import_found found o rep w).1
unfolding import_found
import_found-HeldBy none o rep w named = import_new-HeldBy o rep w
import_found-HeldBy (some e) o rep w named = elim (Bool-cases (is_cancelled e.status)) [
  | inl off ↦ rw (off, import_found) (HeldBy-refl w)
  | inr on ↦
      let r = reappear e w in
      let back = reappear-HeldBy e w in
      rw (on, import_found)
        (HeldBy-trans w r.1 (import_live r.0 o rep r.1).1 back (
          import_live-HeldBy r.0 o rep r.1
            (subst (λ (c : Context). NamedTxns c.env) (sym back.0) named)))
]

pub import_each-HeldBy :
    (occs : List Occurrence) (rep : ImportReport) (w : Service)
    → NamedTxns w.env
    → HeldBy w (import_each occs rep w).1
unfolding import_each
import_each-HeldBy [] rep w named = HeldBy-refl w
import_each-HeldBy (o ∷ rest) rep w named =
    let r = import_found (event_by_source_key o.key w) o rep w in
    let one = import_found-HeldBy (event_by_source_key o.key w) o rep w named in
    HeldBy-trans w r.1 (import_each rest r.0 r.1).1 one
      (import_each-HeldBy rest r.0 r.1 (subst (λ (c : Context). NamedTxns c.env) (sym one.0) named))
