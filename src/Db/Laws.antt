-- ===== src/Db/Laws.antt =====
-- The content of the database as the server sees it, and batches of entries under one family of
-- keys: those of a user, of a directory or of a file.
use tp.Common.{
  ◌≡◌, refl, ◌∙◌, false, Option, none, some, List, [], ◌∷◌, ◌++◌, map, if◌then◌else◌, All,
}
use tp.Text.{Text, text_eq}
use tp.World.{Platform, Content, Update, put_update, erase_update, apply_update, apply_batch, World}

abbrev pub content_of : ⦃P : Platform⦄ → Option P.rocks.Handle → Content
content_of ⦃P⦄ none = λ k. none
content_of ⦃P⦄ (some h) = P.rocks.content h

abbrev pub stored : ⦃P : Platform⦄ → World → Content
stored w = content_of w.db

pub apply_batch-append :
    (us vs : List Update) (c : Content)
    → apply_batch (us ++ vs) c ≡ apply_batch vs (apply_batch us c)
unfolding apply_batch
apply_batch-append [] vs c = refl
apply_batch-append (u ∷ us) vs c = apply_batch-append us vs (apply_update u c)

-- An item and its new value, `none` where it is erased.
abbrev pub Field : Type 0
Field = Text × Option Text

abbrev pub entry : (Text → Text) → Field → Update
entry key (item, none) = erase_update (key item)
entry key (item, some value) = put_update (key item) value

abbrev pub entries : (Text → Text) → List Field → List Update
entries key = map (entry key)

-- The value of an item after the fields are written in order.
unfoldable pub value_after : List Field → Text → Option Text → Option Text
value_after [] item old = old
value_after ((i, v) ∷ fields) item old = value_after fields item (if text_eq i item then v else old)

-- The key of an update.
abbrev pub key_of : Update → Text
key_of (put_update key _) = key
key_of (erase_update key) = key

abbrev pub Avoids : Text → List Update → Type 0
Avoids k = All (λ u. text_eq (key_of u) k ≡ false)

-- A batch changes no key but its own.
pub apply_batch-Avoids :
    (us : List Update) (c : Content) (k : Text) → Avoids k us → apply_batch us c k ≡ c k
unfolding apply_batch
apply_batch-Avoids [] c k h = refl
apply_batch-Avoids (put_update key value ∷ us) c k h = apply_batch-Avoids us _ k h.1 ∙ rw h.0
apply_batch-Avoids (erase_update key ∷ us) c k h = apply_batch-Avoids us _ k h.1 ∙ rw h.0

module _ (key : Text → Text) (key_eq : (s t : Text) → text_eq (key s) (key t) ≡ text_eq s t) where
  apply_entry :
      (i item : Text) (v : Option Text) (c : Content)
      → apply_update (entry key (i, v)) c (key item) ≡ (if text_eq i item then v else c (key item))
  apply_entry i item none c = rw key_eq
  apply_entry i item (some v) c = rw key_eq

  -- Within its family a batch acts on the items.
  pub apply_batch-entries :
      (fields : List Field) (item : Text) (c : Content)
      → apply_batch (entries key fields) c (key item) ≡ value_after fields item (c (key item))
  unfolding apply_batch value_after
  apply_batch-entries [] item c = refl
  apply_batch-entries ((i, v) ∷ fields) item c =
      apply_batch-entries fields item (apply_update (entry key (i, v)) c)
      ∙ rw (apply_entry i item v c)

-- A key outside the family is not touched.
pub entries-Avoids :
    (key : Text → Text) (fields : List Field) (k : Text)
    → ((s : Text) → text_eq (key s) k ≡ false)
    → Avoids k (entries key fields)
entries-Avoids key [] k h = tt
entries-Avoids key ((i, none) ∷ fields) k h = (h i, entries-Avoids key fields k h)
entries-Avoids key ((i, some v) ∷ fields) k h = (h i, entries-Avoids key fields k h)

-- A key that is none of those of some items.
abbrev pub NoKey : (Text → Text) → List Text → Text → Type 0
NoKey key items k = All (λ item. text_eq (key item) k ≡ false) items

-- A key that is none of those that are written is not touched.
pub entries-NoKey :
    (key : Text → Text) (fields : List Field) (k : Text)
    → NoKey key (map (λ f. f.0) fields) k
    → Avoids k (entries key fields)
entries-NoKey key [] k h = tt
entries-NoKey key ((i, none) ∷ fields) k h = (h.0, entries-NoKey key fields k h.1)
entries-NoKey key ((i, some v) ∷ fields) k h = (h.0, entries-NoKey key fields k h.1)
