-- ===== src/Text/Split.antt =====
-- `split_string` of server/src/data_handler.cc and server/src/request_dispatcher.cc: the items that
-- successive calls of `getline` return, without the empty ones.
use tp.Common.{
  ℕ, ◌≡◌, refl, ◌≢◌, false, List, [], ◌∷◌, ◌++◌, arith, ◌==◌, All, Bool-cases, inl, inr,
  if◌then◌else◌,
}
use tp.Text.{Text}

-- `if( !item.empty() ){ tokens.push_back(item); }`, before the tokens of the rest
unfoldable pub keep_item : Text → List Text → List Text
keep_item [] tokens = tokens
keep_item (c ∷ item) tokens = (c ∷ item) ∷ tokens

-- The first item of a text, and the tokens of what follows it.
unfoldable pub items : ℕ → Text → Text × List Text
unfolding keep_item
items d [] = ([], [])
items d (c ∷ s) =
    let (item, tokens) = items d s in
    if c == d then ([], keep_item item tokens) else (c ∷ item, tokens)

unfoldable pub split_string : Text → ℕ → List Text
unfolding items
split_string s d = let (item, tokens) = items d s in keep_item item tokens

-- A text that can be an element of a list of keys: it is not empty and has no delimiter.
pub record IsToken (d : ℕ) (t : Text) : Type 0 where
  pub nonempty : t ≢ []
  pub free : All (λ c. (c == d) ≡ false) t

keep_item-append :
    (item : Text) (xs ys : List Text) → keep_item item (xs ++ ys) ≡ keep_item item xs ++ ys
unfolding keep_item
keep_item-append [] xs ys = refl
keep_item-append (c ∷ item) xs ys = refl

items-append_delimiter :
    (d : ℕ) (a b : Text) → items d (a ++ d ∷ b) ≡ ((items d a).0, (items d a).1 ++ split_string b d)
unfolding split_string
items-append_delimiter d [] b = ground arith
items-append_delimiter d (c ∷ a) b = ground (
  arith,
  items-append_delimiter d a b,
  keep_item-append (items d a).0 (items d a).1 (split_string b d),
)

-- A delimiter between two texts separates their tokens.
pub split_string-append :
    (d : ℕ) (a b : Text) → split_string (a ++ d ∷ b) d ≡ split_string a d ++ split_string b d
split_string-append d a b =
    unfold split_string in
    cc (
      items-append_delimiter d a b,
      keep_item-append (items d a).0 (items d a).1 (split_string b d),
    )

items_free : (d : ℕ) (t : Text) → All (λ c. (c == d) ≡ false) t → items d t ≡ (t, [])
unfolding items
items_free d [] h = refl
items_free d (c ∷ t) h = ground (arith, items_free d t h.1)

pub split_string_token : (d : ℕ) (t : Text) → IsToken d t → split_string t d ≡ t ∷ []
unfolding split_string
split_string_token d [] h = absurd (h.nonempty refl)
split_string_token d (c ∷ t) h = rw (items_free d (c ∷ t) h.free)

keep_item-IsToken :
    (d : ℕ) (item : Text) (xs : List Text)
    → All (λ c. (c == d) ≡ false) item
    → All (IsToken d) xs
    → All (IsToken d) (keep_item item xs)
unfolding keep_item
keep_item-IsToken d [] xs h k = k
keep_item-IsToken d (c ∷ item) xs h k = (record { nonempty = λ e. cc; free = h }, k)

items-IsToken :
    (d : ℕ) (s : Text) → All (λ c. (c == d) ≡ false) (items d s).0 × All (IsToken d) (items d s).1
unfolding items
items-IsToken d [] = (tt, tt)
items-IsToken d (c ∷ s) = elim (Bool-cases (c == d)) [
  | inl stop ↦ rw stop (
    tt,
    keep_item-IsToken d (items d s).0 (items d s).1 (items-IsToken d s).0 (items-IsToken d s).1,
  )
  | inr go ↦ rw go ((go, (items-IsToken d s).0), (items-IsToken d s).1)
]

-- Every token that is split off is not empty and has no delimiter in it.
pub split_string-IsToken : (d : ℕ) (s : Text) → All (IsToken d) (split_string s d)
unfolding split_string
split_string-IsToken d s =
    keep_item-IsToken d (items d s).0 (items d s).1 (items-IsToken d s).0 (items-IsToken d s).1
