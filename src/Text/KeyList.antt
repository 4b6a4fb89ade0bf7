-- ===== src/Text/KeyList.antt =====
-- Lists of keys written in one text, `;id;id`: `add_key_to_string_list`,
-- `remove_key_from_string_list` and `divide_selected_ids` of server/src/request_dispatcher.cc.
use tp.Common.{
  ℕ, ◌≡◌, sym, ap, ◌∙◌, refl, Bool, false, not, ◌||◌, List, [], ◌∷◌, ◌++◌, append_assoc, append-nil,
  All, filter, filter-All, if◌then◌else◌, Bool-cases, inl, inr,
}
use tp.Text.{Text, text_eq}
use tp.Text.Split.{
  IsToken, split_string, split_string-append, split_string_token, split_string-IsToken,
}

-- LABEL_STRING_DELIMITER
abbrev pub delimiter : ℕ
delimiter = b';'

abbrev pub tokens : Text → List Text
tokens list = split_string list delimiter

abbrev pub IsKey : Text → Type 0
IsKey = IsToken delimiter

-- The search of a list of keys for one of them, as the loops do it: up to the first that is equal.
unfoldable pub contains : Text → List Text → Bool
contains key [] = false
contains key (k ∷ ks) = text_eq k key || contains key ks

unfoldable pub add_key_to_string_list : Text → Text → Text
unfolding contains
add_key_to_string_list list key =
    if contains key (tokens list) then list else list ++ delimiter ∷ key

-- The loop of `remove_key_from_string_list`, with the text built so far.
unfoldable pub append_others : Text → Text → List Text → Text
append_others new_list key [] = new_list
append_others new_list key (k ∷ ks) =
    append_others (if not (text_eq k key) then new_list ++ delimiter ∷ k else new_list) key ks

unfoldable pub remove_key_from_string_list : Text → Text → Text
unfolding append_others
remove_key_from_string_list list key = append_others [] key (tokens list)

-- The loop of `divide_selected_ids`: the coincidences and the others, each in its own text.
unfoldable pub divide_ids : List Text → List Text → Text → Text → Text × Text
unfolding contains
divide_ids [] selected_ids coincidence_ids no_coincidence_ids =
    (coincidence_ids, no_coincidence_ids)
divide_ids (original_id ∷ rest) selected_ids coincidence_ids no_coincidence_ids =
    let found = contains original_id selected_ids in
    divide_ids rest selected_ids
      (if found then coincidence_ids ++ delimiter ∷ original_id else coincidence_ids)
      (if found then no_coincidence_ids else no_coincidence_ids ++ delimiter ∷ original_id)

unfoldable pub divide_selected_ids : Text → List Text → Text × Text
unfolding divide_ids
divide_selected_ids original_ids selected_ids = divide_ids (tokens original_ids) selected_ids [] []

-- Adding a key that is not empty and has no delimiter keeps the keys there are, in order, and puts a
-- new one behind them.
pub tokens-add_key :
    (list key : Text)
    → IsKey key
    → tokens (add_key_to_string_list list key)
      ≡ (if contains key (tokens list) then tokens list else tokens list ++ key ∷ [])
unfolding add_key_to_string_list
tokens-add_key list key h = elim (Bool-cases (contains key (tokens list))) [
  | inl old ↦ rw old
  | inr new ↦
      rw new (simp (split_string-append delimiter list key, split_string_token delimiter key h))
]

-- The text of a list of keys.
abbrev pub written : List Text → Text
written [] = []
written (k ∷ ks) = delimiter ∷ (k ++ written ks)

abbrev pub others : Text → List Text → List Text
others key = filter (λ k. not (text_eq k key))

append_others-written :
    (new_list key : Text) (ks : List Text)
    → append_others new_list key ks ≡ new_list ++ written (others key ks)
unfolding append_others
append_others-written new_list key [] = sym (append-nil new_list)
append_others-written new_list key (k ∷ ks) = elim (Bool-cases (text_eq k key)) [
  | inl same ↦ rw same (append_others-written new_list key ks)
  | inr differs ↦ rw differs (
      rw (append_others-written (new_list ++ delimiter ∷ k) key ks)
        (append_assoc new_list (delimiter ∷ k) (written (others key ks))))
]

tokens_empty : tokens [] ≡ []
unfolding split_string
tokens_empty = refl

leading_delimiter : (s : Text) → tokens (delimiter ∷ s) ≡ tokens s
unfolding split_string
leading_delimiter s = split_string-append delimiter [] s

tokens-written : (ks : List Text) → All IsKey ks → tokens (written ks) ≡ ks
tokens-written [] h = tokens_empty
tokens-written (k ∷ []) h =
    leading_delimiter (k ++ []) ∙ rw (append-nil k) (split_string_token delimiter k h.0)
tokens-written (k ∷ j ∷ ks) h =
    leading_delimiter (k ++ delimiter ∷ (j ++ written ks))
    ∙ split_string-append delimiter k (j ++ written ks)
    ∙ cc (
      split_string_token delimiter k h.0,
      leading_delimiter (j ++ written ks),
      tokens-written (j ∷ ks) h.1,
    )

-- Removing a key removes all its occurrences, and keeps the other keys in order.
pub tokens-remove_key :
    (list key : Text) → tokens (remove_key_from_string_list list key) ≡ others key (tokens list)
unfolding remove_key_from_string_list
tokens-remove_key list key =
    ap tokens (append_others-written [] key (tokens list))
    ∙ tokens-written (others key (tokens list)) (
        filter-All IsKey (λ k. not (text_eq k key)) (tokens list)
          (split_string-IsToken delimiter list))

abbrev pub selected : List Text → List Text → List Text
selected selected_ids = filter (λ k. contains k selected_ids)

abbrev pub unselected : List Text → List Text → List Text
unselected selected_ids = filter (λ k. not (contains k selected_ids))

divide_ids-written :
    (ids selected_ids : List Text) (a b : Text)
    → divide_ids ids selected_ids a b
      ≡ (a ++ written (selected selected_ids ids), b ++ written (unselected selected_ids ids))
unfolding divide_ids
divide_ids-written [] selected_ids a b = cc (append-nil a, append-nil b)
divide_ids-written (k ∷ ids) selected_ids a b = elim (Bool-cases (contains k selected_ids)) [
  | inl found ↦ rw found (
      rw (
        divide_ids-written ids selected_ids (a ++ delimiter ∷ k) b,
        append_assoc a (delimiter ∷ k) (written (selected selected_ids ids)),
      ))
  | inr missing ↦ rw missing (
      rw (
        divide_ids-written ids selected_ids a (b ++ delimiter ∷ k),
        append_assoc b (delimiter ∷ k) (written (unselected selected_ids ids)),
      ))
]

-- The keys are divided into those that are selected and those that are not, each in order.
pub tokens-divide :
    (original_ids : Text) (selected_ids : List Text)
    → let (coincidence, no_coincidence) = divide_selected_ids original_ids selected_ids in
      (tokens coincidence ≡ selected selected_ids (tokens original_ids))
      × (tokens no_coincidence ≡ unselected selected_ids (tokens original_ids))
unfolding divide_selected_ids
tokens-divide original_ids selected_ids =
    rw (divide_ids-written (tokens original_ids) selected_ids [] []) (
      tokens-written _
          (filter-All IsKey _ (tokens original_ids) (split_string-IsToken delimiter original_ids)),
      tokens-written _
          (filter-All IsKey _ (tokens original_ids) (split_string-IsToken delimiter original_ids)),
    )
