-- ===== src/Rest/Urls.antt =====
-- `split`, which server/src/mg_connection_w.cc and each node of server/src/rest have a copy of, takes
-- apart what is put together with a separator, so that a node reads the user and the id from the URL
-- that was made of them.
use tp.Common.{
  ℕ, ◌≡◌, refl, ap, ◌∙◌, false, List, [], ◌∷◌, ◌++◌, length, ◌==◌, ==_refl, All, append_assoc,
  append-nil,
}
use tp.Text.{Text, codes}
use tp.Dispatcher.Listing
use tp.Rest.Connection.{Connection, split, split_from}
use tp.Rest.Json.{join, join_behind}

-- A text without a separator.
abbrev pub Free : ℕ → Text → Type 0
Free d [] = Unit
Free d (c ∷ s) = ((c == d) ≡ false) × Free d s

-- The last of `x ∷ xs` is not empty.
abbrev pub EndsFull : Text → List Text → Type 0
EndsFull x [] = (length x == 0) ≡ false
EndsFull x (y ∷ ys) = EndsFull y ys

split_from-Free :
    (d : ℕ) (item x rest : Text)
    → Free d x
    → split_from d item (x ++ rest) ≡ split_from d (item ++ x) rest
unfolding split_from
split_from-Free d item [] rest h = rw (append-nil item)
split_from-Free d item (c ∷ x) rest h =
    rw h.0 (split_from-Free d (item ++ c ∷ []) x rest h.1)
    ∙ ap (λ t. split_from d t rest) (append_assoc item (c ∷ []) x)

split_from-join :
    (d : ℕ) (item : Text) (xs : List Text)
    → All (Free d) xs
    → EndsFull item xs
    → split_from d item (join_behind (d ∷ []) xs) ≡ item ∷ xs
unfolding split_from
split_from-join d item [] h e = rw e refl
split_from-join d item (x ∷ xs) h e = rw (==_refl d) (
    ap (λ (ts : List Text). item ∷ ts)
      (split_from-Free d [] x (join_behind (d ∷ []) xs) h.0 ∙ split_from-join d x xs h.1 e))

-- What is joined with a separator and split at it again is what it was, where no item holds the
-- separator and the last one is not empty.
pub split-join :
    (d : ℕ) (x : Text) (xs : List Text)
    → Free d x
    → All (Free d) xs
    → EndsFull x xs
    → split (join (d ∷ []) (x ∷ xs)) d ≡ x ∷ xs
unfolding split join
split-join d x xs free frees e =
    split_from-Free d [] x (join_behind (d ∷ []) xs) free ∙ split_from-join d x xs frees e

-- The parts of the URL of a directory.
abbrev pub directory_parts : Text → Text → List Text
directory_parts user_id dir_id =
    [] ∷ codes "info" ∷ codes "users" ∷ user_id ∷ codes "dir" ∷ dir_id ∷ []
