-- ===== src/Links/Minting.antt =====
-- linksLocked reuses the pair that is there: asking again changes nothing.

use stattii.Base.{
  Bool, Bool-cases, List, String, [], ap, ap₂, arith, eq_iff, eq_refl, false, if◌then◌else◌, inl,
  inr, refl, subst, sym, true, ℕ, ◌++◌, ◌==◌, ◌∙◌, ◌∷◌, ◌≡◌, ◌≢◌,
}
use stattii.Links.Defs.{cancels, confirms, ensure_link, links_locked, new_link, pick_token}
use stattii.Model.{ActionKind, ActionLink}
use stattii.Service.{Env, Service}

-- A token of crypto/rand is never the empty text.
abbrev pub NamedTokens : Env → Type 0
NamedTokens env = (n : ℕ) → env.new_token n ≢ ""

pick_token-append :
    (fits : ActionLink → Bool) (tok : String) (xs ys : List ActionLink)
    → pick_token fits tok (xs ++ ys) ≡ pick_token fits (pick_token fits tok xs) ys
unfolding pick_token
pick_token-append fits tok [] ys = refl
pick_token-append fits tok (x ∷ xs) ys =
    pick_token-append fits (if fits x then x.token else tok) xs ys

module _ (event_id person_id : String) (action : ActionKind) (fits : ActionLink → Bool) where
  abbrev ensured : String → Service → String × Service
  ensured tok w = ensure_link event_id person_id action tok w

  -- The token that a call returns is the one that the next loop finds.
  ensure_link-picks :
      (w : Service)
      → NamedTokens w.env
      → ((token : String) → fits (new_link event_id person_id action token) ≡ true)
      → (let r = ensured (pick_token fits "" w.tables.links) w in
          (pick_token fits "" r.1.tables.links ≡ r.0) × (r.0 ≢ ""))
  unfolding ensure_link pick_token
  ensure_link-picks w named hit = elim (Bool-cases (pick_token fits "" w.tables.links == "")) [
    | inl e ↦
        rw (e, ensure_link)
          (
            pick_token-append fits "" w.tables.links
                  (new_link event_id person_id action (w.env.new_token w.drawn) ∷ [])
                ∙ rw (hit (w.env.new_token w.drawn), pick_token) refl,
            named w.drawn,
          )
    | inr e ↦
        rw (e, ensure_link)
          (refl, λ q. ground (arith, eq_iff (pick_token fits "" w.tables.links) ""))
  ]

  -- Minting a link of the other action leaves the choice alone.
  ensure_link-skips :
      (tok : String) (w : Service)
      → ((token : String) → fits (new_link event_id person_id action token) ≡ false)
      → pick_token fits "" (ensured tok w).1.tables.links ≡ pick_token fits "" w.tables.links
  unfolding ensure_link pick_token
  ensure_link-skips tok w miss = elim (Bool-cases (tok == "")) [
    | inl e ↦
        rw (e, ensure_link)
          (pick_token-append fits "" w.tables.links
              (new_link event_id person_id action (w.env.new_token w.drawn) ∷ [])
            ∙ rw (miss (w.env.new_token w.drawn), pick_token) refl)
    | inr e ↦ rw (e, ensure_link) refl
  ]

ensure_link-keeps :
    (event_id person_id : String) (action : ActionKind) (tok : String) (w : Service)
    → tok ≢ ""
    → ensure_link event_id person_id action tok w ≡ (tok, w)
unfolding ensure_link
ensure_link-keeps event_id person_id action tok w h = elim (Bool-cases (tok == "")) [
  | inl e ↦ absurd (h ((eq_iff tok "").0 e))
  | inr e ↦ rw (e, ensure_link) refl
]

ensure_link-ctx :
    (event_id person_id : String) (action : ActionKind) (tok : String) (w : Service)
    → (ensure_link event_id person_id action tok w).1.ctx ≡ w.ctx
unfolding ensure_link
ensure_link-ctx event_id person_id action tok w = elim (Bool-cases (tok == "")) [
  | inl e ↦ rw (e, ensure_link) refl
  | inr e ↦ rw (e, ensure_link) refl
]

module _ (event_id person_id : String) where
  confirms-new :
      (t : String)
      → confirms event_id person_id (new_link event_id person_id ActionKind.confirm t) ≡ true
  unfolding new_link
  confirms-new t = rw (eq_refl event_id, eq_refl person_id) refl

  cancels-new :
      (t : String)
      → cancels event_id person_id (new_link event_id person_id ActionKind.cancel t) ≡ true
  unfolding new_link
  cancels-new t = rw (eq_refl event_id, eq_refl person_id) refl

  confirms-cancel :
      (t : String)
      → confirms event_id person_id (new_link event_id person_id ActionKind.cancel t) ≡ false
  unfolding new_link
  confirms-cancel t = rw (eq_refl event_id, eq_refl person_id) refl

  cancels-confirm :
      (t : String)
      → cancels event_id person_id (new_link event_id person_id ActionKind.confirm t) ≡ false
  unfolding new_link
  cancels-confirm t = rw (eq_refl event_id, eq_refl person_id) refl

  links_from : String → String → Service → (String × String) × Service
  links_from c x v =
      let (c', v1) = ensure_link event_id person_id ActionKind.confirm c v in
      let (x', v2) = ensure_link event_id person_id ActionKind.cancel x v1 in ((c', x'), v2)

  links_from-keeps : (c x : String) (v : Service) → c ≢ "" → x ≢ "" → links_from c x v ≡ ((c, x), v)
  unfolding links_from
  links_from-keeps c x v h k =
      ap {A = String × Service} {B = (String × String) × Service}
        (λ r. let s = ensure_link event_id person_id ActionKind.cancel x r.1 in ((r.0, s.0), s.1))
        (ensure_link-keeps event_id person_id ActionKind.confirm c v h)
      ∙ ap {A = String × Service} {B = (String × String) × Service} (λ r. ((c, r.0), r.1))
          (ensure_link-keeps event_id person_id ActionKind.cancel x v k)

  -- A pair that the loops find is the answer, and nothing is minted.
  links_locked-keeps :
      (c x : String) (v : Service)
      → pick_token (confirms event_id person_id) "" v.tables.links ≡ c
      → pick_token (cancels event_id person_id) "" v.tables.links ≡ x
      → c ≢ ""
      → x ≢ ""
      → links_locked event_id person_id v ≡ ((c, x), v)
  unfolding links_locked links_from
  links_locked-keeps c x v hc hx nc nx =
      ap₂ (λ c x. links_from c x v) hc hx ∙ links_from-keeps c x v nc nx

  -- Where no token is empty, a second call returns the same pair and leaves the service as it is.
  links_locked_twice :
      (w : Service)
      → NamedTokens w.env
      → (let r = links_locked event_id person_id w in links_locked event_id person_id r.1 ≡ r)
  unfolding links_locked
  links_locked_twice w named =
      let c = pick_token (confirms event_id person_id) "" w.tables.links in
      let x = pick_token (cancels event_id person_id) "" w.tables.links in
      let first = ensure_link event_id person_id ActionKind.confirm c w in
      let second = ensure_link event_id person_id ActionKind.cancel x first.1 in
      let minted =
        ensure_link-picks event_id person_id ActionKind.confirm (confirms event_id person_id) w
          named confirms-new in
      let same =
        ensure_link-skips event_id person_id ActionKind.confirm (cancels event_id person_id) c w
          cancels-confirm in
      let other =
        second_picks x first.1
          (subst (λ k. NamedTokens k.env)
            (sym (ensure_link-ctx event_id person_id ActionKind.confirm c w)) named)
          same in
      links_locked-keeps first.0 second.0 second.1
        (ensure_link-skips event_id person_id ActionKind.cancel (confirms event_id person_id) x
            first.1 confirms-cancel
          ∙ minted.0)
        other.0 minted.1 other.1
    where
      second_picks :
          (x : String) (v : Service)
          → NamedTokens v.env
          → pick_token (cancels event_id person_id) "" v.tables.links ≡ x
          → (let r = ensure_link event_id person_id ActionKind.cancel x v in
              (pick_token (cancels event_id person_id) "" r.1.tables.links ≡ r.0) × (r.0 ≢ ""))
      second_picks x v n e =
          subst
            (λ y.
              let r = ensure_link event_id person_id ActionKind.cancel y v in
              (pick_token (cancels event_id person_id) "" r.1.tables.links ≡ r.0) × (r.0 ≢ ""))
            e
            (ensure_link-picks event_id person_id ActionKind.cancel (cancels event_id person_id) v n
              cancels-new)
