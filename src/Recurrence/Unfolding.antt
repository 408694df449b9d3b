-- ===== src/Recurrence/Unfolding.antt =====
-- unfold and unescapeText of internal/icsimport/parse.go, over any kind of character with its code.

use stattii.Base.{
  Bool, List, Option, [], eqb, false, if◌then◌else◌, none, some, ℕ, ◌&&◌, ◌++◌, ◌||◌, ◌∷◌,
}

module _ {ℓ} {A : Type ℓ} (at : A → ℕ) where
  abbrev pub is_at : ℕ → A → Bool
  is_at n c = eqb (at c) n

  abbrev pub starts_at_code : ℕ → List A → Bool
  starts_at_code n [] = false
  starts_at_code n (c ∷ cs) = is_at n c

  -- strings.ReplaceAll(s, "\r\n", "\n")
  unfoldable pub replace_crlf : List A → List A
  replace_crlf [] = []
  replace_crlf (c ∷ cs) =
      let rest = replace_crlf cs in
      if is_at b'\r' c && starts_at_code b'\n' cs then rest else c ∷ rest

  -- strings.Split(s, "\n"), from the line at hand.
  unfoldable pub split_lines : List A → List A → List (List A)
  split_lines word [] = word ∷ []
  split_lines word (c ∷ cs) =
      let ended = word ∷ split_lines [] cs in
      let more = split_lines (word ++ c ∷ []) cs in if is_at b'\n' c then ended else more

  abbrev pub continues : A → Bool
  continues c = is_at b' ' c || is_at b'\t' c

  -- The loop over the physical lines, with the logical line at hand.
  unfoldable pub gather : Option (List A) → List (List A) → List (List A)
  gather none [] = []
  gather (some cur) [] = cur ∷ []
  gather cur ([] ∷ ls) = gather cur ls
  gather none ((c ∷ cs) ∷ ls) = gather (some (c ∷ cs)) ls
  gather (some cur) ((c ∷ cs) ∷ ls) =
      let folded = gather (some (cur ++ cs)) ls in
      let next = cur ∷ gather (some (c ∷ cs)) ls in if continues c then folded else next

  -- unfold
  unfoldable pub unfold_lines : List A → List (List A)
  unfolding replace_crlf split_lines gather
  unfold_lines raw = gather none (split_lines [] (replace_crlf raw))

  -- unescapeText, with the character for a line feed. A backslash at the end stands for itself.
  unfoldable pub unescape_text : A → List A → List A
  unescape_text newline [] = []
  unescape_text newline (c ∷ []) = c ∷ []
  unescape_text newline (c ∷ d ∷ cs) =
      let opened =
        (if is_at b'n' d || is_at b'N' d then newline else d) ∷ unescape_text newline cs in
      let plain = c ∷ unescape_text newline (d ∷ cs) in if is_at b'\\' c then opened else plain
