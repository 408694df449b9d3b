-- ===== src/Links/Authority.antt =====
-- Which presses of a button VerifyTelegramActor lets through.

use stattii.Base.{
  Bool, Bool-cases, List, Result, String, [], any_of, arith, err, false, inl, inr, none, not, ok,
  refl, true, wrong_actor, ◌&&◌, ◌++◌, ◌==◌, ◌||◌, ◌∙◌, ◌∷◌, ◌≡◌,
}
use stattii.Links.Actors.{
  compare_channels, is_private_chat_id, is_telegram, judge_actor, verify_resolved,
  verify_telegram_actor,
}
use stattii.Links.Defs.{Resolved, lookup_link_locked}
use stattii.Model.{Address}
use stattii.Service.{Fields, Service, audit_fuel, audit_locked, audited, entry, text}
use stattii.Service.Frame.{audit-Emits}
use stattii.Service.Health.Episodes.{outbox-audit, store_pages}

-- The presser's own chat is among the telegram channels.
abbrev pub is_own : String → Address → Bool
is_own from_id ch = is_telegram ch && ch.to == from_id

-- A telegram channel that is no private chat, and so cannot be compared with a presser.
abbrev pub is_shared : Address → Bool
is_shared ch = is_telegram ch && not (is_private_chat_id ch.to)

compare_channels-verdict :
    (from_id : String) (chs : List Address) (seen : Bool)
    → (let r = compare_channels from_id chs seen in
        (r.0 ≡ any_of (is_own from_id) chs)
        × ((r.0 || r.1) ≡ (any_of (is_own from_id) chs || (seen || any_of is_shared chs))))
unfolding compare_channels
compare_channels-verdict from_id [] seen = (refl, ground arith)
compare_channels-verdict from_id (ch ∷ chs) seen = elim (Bool-cases (is_telegram ch)) [
  | inr t ↦ rw (t, compare_channels) (compare_channels-verdict from_id chs seen)
  | inl t ↦
      rw (t, compare_channels)
        (elim (Bool-cases (ch.to == from_id)) [
          | inl own ↦ rw own (refl, refl)
          | inr strange ↦ rw strange (elim (Bool-cases (is_private_chat_id ch.to)) [
            | inl p ↦ rw p (compare_channels-verdict from_id chs seen)
            | inr p ↦
                rw p
                  (let v = compare_channels-verdict from_id chs true in (v.0, v.1 ∙ ground arith))
          ])
        ])
]

-- A line on record: it ends the audit log where the store takes it, and where the store does not,
-- the pages are those of a failing store. The tables stay either way.
pub record OnRecord (kind : String) (fields : Fields) (w v : Service) : Type 0 where
  pub tables : v.tables ≡ w.tables
  pub written :
      w.env.audit_result w.audits ≡ none
      → v.log ≡ w.log ++ record { kind = kind; fields = fields } ∷ []
  pub pages :
      v.outbox ≡ w.outbox ++ store_pages (w.env.audit_result w.audits) "audit write failed" w

audit_locked-OnRecord :
    (kind : String) (fields : Fields) (w : Service)
    → OnRecord kind fields w (audit_locked kind fields w)
audit_locked-OnRecord kind fields w = record {
  tables = (audit-Emits kind fields w).tables;
  written = λ h. unfold audit_locked audit_fuel audited entry in rw h refl;
  pages = outbox-audit kind fields w;
}

-- The fields of both lines: whose link it was, and who pressed.
abbrev pub press_fields : String → Resolved → Fields → Fields
press_fields from_id v more =
    ("event_id", text v.event.id)
    ∷ ("person_id", text v.person.id)
    ∷ ("from_id", text from_id)
    ∷ more

abbrev pub Judged : String → Resolved → Bool → Bool → Service → Result (Unit {0}) × Service → Type 0
Judged from_id v true shared w r = r ≡ (ok tt, w)
Judged from_id v false true w r =
    (r.0 ≡ ok tt)
    × OnRecord "telegram.actor_unverified"
        (press_fields from_id v (("reason", text "unverified: not a private chat id") ∷ [])) w r.1
Judged from_id v false false w r =
    (r.0 ≡ err wrong_actor) × OnRecord "telegram.actor_mismatch" (press_fields from_id v []) w r.1

abbrev pub Verdict : String → Result Resolved → Service → Result (Unit {0}) × Service → Type 0
Verdict from_id (err e) w r = r ≡ (err e, w)
Verdict from_id (ok v) w r =
    Judged from_id v (any_of (is_own from_id) v.person.channels)
      (any_of is_shared v.person.channels) w r

judge_actor-Judged :
    (from_id : String) (v : Resolved) (own shared : Bool) (found : Bool × Bool) (w : Service)
    → found.0 ≡ own
    → (found.0 || found.1) ≡ (own || shared)
    → Judged from_id v own shared w (judge_actor from_id v found w)
unfolding judge_actor
judge_actor-Judged from_id v true shared (true, u) w h k = refl
judge_actor-Judged from_id v true shared (false, u) w h k = absurd (cc)
judge_actor-Judged from_id v false shared (true, u) w h k = absurd (cc)
judge_actor-Judged from_id v false true (false, true) w h k =
    (refl, audit_locked-OnRecord "telegram.actor_unverified" _ w)
judge_actor-Judged from_id v false true (false, false) w h k = absurd (cc)
judge_actor-Judged from_id v false false (false, true) w h k = absurd (cc)
judge_actor-Judged from_id v false false (false, false) w h k =
    (refl, audit_locked-OnRecord "telegram.actor_mismatch" _ w)

verify_resolved-Verdict :
    (from_id : String) (found : Result Resolved) (w : Service)
    → Verdict from_id found w (verify_resolved from_id found w)
unfolding verify_resolved
verify_resolved-Verdict from_id (err e) w = refl
verify_resolved-Verdict from_id (ok v) w =
    let c = compare_channels-verdict from_id v.person.channels false in
    judge_actor-Judged from_id v (any_of (is_own from_id) v.person.channels)
      (any_of is_shared v.person.channels) (compare_channels from_id v.person.channels false) w c.0
      c.1

-- A dead link is refused as such. On a live one the presser passes without a trace if one of the
-- person's telegram channels is theirs, passes with the line telegram.actor_unverified if none is
-- but one is no private chat, and is the wrong actor, with the line telegram.actor_mismatch,
-- otherwise. The line names event, person and presser; where the store takes it, it ends the audit
-- log, and the outbox gains no more than the page of a failing store. No case changes the tables.
pub verify_telegram_actor-Verdict :
    (token from_id : String) (w : Service)
    → Verdict from_id (lookup_link_locked token w) w (verify_telegram_actor token from_id w)
unfolding verify_telegram_actor
verify_telegram_actor-Verdict token from_id w =
    verify_resolved-Verdict from_id (lookup_link_locked token w) w
