-- ===== src/Scheduler/Reach.antt =====
-- Who can be reached: Address.Validate and HasValidChannel of internal/core/core.go, parseEmail of
-- invite.go, reachableLocked and personNames of service.go, anyValidChannel of channels.go.

use stattii.Base.{
  Bool, Char, List, Option, String, [], any_of, chars, code, concat, eqb, false, if◌then◌else◌,
  join, ltb, map, none, not, select, some, trim_space, true, ℕ, ◌&&◌, ◌+◌, ◌==◌, ◌||◌, ◌∷◌,
}
use stattii.Model.{Address, Person, reachable, usable}
use stattii.Redaction.{shown_target}
use stattii.Service.{Env, Url}

-- The bytes of a rune in UTF-8.
abbrev pub rune_bytes : Char → ℕ
rune_bytes c =
    let n = code c in
    if ltb n 0x80 then 1 else if ltb n 0x800 then 2 else if ltb n 0x10000 then 3 else 4

abbrev pub byte_length : List Char → ℕ
byte_length [] = 0
byte_length (c ∷ cs) = rune_bytes c + byte_length cs

-- What follows the last `@`.
abbrev pub after_at : List Char → Option (List Char)
after_at [] = none
after_at (c ∷ cs) = elim (after_at cs) [
  | some d ↦ some d
  | none ↦ if eqb (code c) 64 then some cs else none
]

abbrev pub is_dotted : Option (List Char) → Bool
is_dotted none = false
is_dotted (some d) = any_of (λ c. eqb (code c) 46) d

abbrev pub max_guest_mail : ℕ
max_guest_mail = 200

abbrev pub check_address : Option String → Option String
check_address none = none
check_address (some a) =
    if ltb max_guest_mail (byte_length (chars a))
    then none
    else if is_dotted (after_at (chars a))
    then some a
    else none

-- parseEmail
unfoldable pub parse_email : Env → String → Option String
parse_email env s = check_address (env.parse_address (trim_space s))

abbrev pub is_missing : Option String → Bool
is_missing none = true
is_missing (some _) = false

abbrev pub is_http : Option Url → Bool
is_http none = false
is_http (some u) = (u.scheme == "http" || u.scheme == "https") && not (u.host == "")

-- Address.Problem: the text of Address.Validate's error, or nothing.
unfoldable pub problem : Env → Address → String
unfolding parse_email
problem env a =
    if a.kind == "email"
    then (if is_missing (parse_email env a.to)
        then concat ("email address " ∷ env.quote a.to ∷ " does not look right" ∷ [])
        else "")
    else if a.kind == "telegram"
    then (if trim_space a.to == "" then "a telegram channel needs a chat id" else "")
    else if a.kind == "webhook"
    then (if is_http (env.parse_url a.to)
        then ""
        else concat
            ("webhook " ∷ env.quote (shown_target env a.to) ∷ " must be an http(s) URL" ∷ []))
    else concat
        ("unknown channel kind " ∷ env.quote a.kind ∷ " (use email, telegram, or webhook)" ∷ [])

-- Person.HasValidChannel
abbrev pub has_valid_channel : Env → Person → Bool
has_valid_channel env p = any_of (λ ch. usable ch && problem env ch == "") p.channels

-- anyValidChannel
abbrev pub any_valid_channel : Env → List Person → Bool
any_valid_channel env ps = any_of (has_valid_channel env) ps

-- The second result of reachableLocked; the first is `assignees`.
abbrev pub reachable_of : List Person → List Person
reachable_of ps = select reachable ps

abbrev pub person_names : List Person → String
person_names ps = join ", " (map (λ p. p.name) ps)

abbrev pub no_people : List Person → Bool
no_people [] = true
no_people (p ∷ ps) = false
