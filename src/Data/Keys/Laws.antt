-- ===== src/Data/Keys/Laws.antt =====
-- The families of keys do not overlap, and in each of them an id and an item determine the key.
-- Ids are decimal, and items begin with `_`.
use tp.Common.{◌≡◌, refl, sym, ◌∙◌, true, false, ◌&&◌, [], ◌∷◌, ◌++◌, arith}
use tp.Text.{Text, text_eq, text_eq_iff, text_eq-append_left}
use tp.Text.Decimal.{Digits}
use tp.Data.Constants.{prefix_user, prefix_dir, prefix_file}
use tp.Data.Keys.{generate_user_key, generate_dir_key, generate_file_key, generate_ticket_key}

pub user_key_eq :
    (id s t : Text) → text_eq (generate_user_key id s) (generate_user_key id t) ≡ text_eq s t
unfolding generate_user_key
user_key_eq id s t =
    text_eq-append_left prefix_user (id ++ s) (id ++ t) ∙ text_eq-append_left id s t

pub dir_key_eq :
    (id s t : Text) → text_eq (generate_dir_key id s) (generate_dir_key id t) ≡ text_eq s t
unfolding generate_dir_key
dir_key_eq id s t = text_eq-append_left prefix_dir (id ++ s) (id ++ t) ∙ text_eq-append_left id s t

pub file_key_eq :
    (id s t : Text) → text_eq (generate_file_key id s) (generate_file_key id t) ≡ text_eq s t
unfolding generate_file_key
file_key_eq id s t =
    text_eq-append_left prefix_file (id ++ s) (id ++ t) ∙ text_eq-append_left id s t

-- A text that begins with the underscore of an item.
abbrev pub IsItem : Text → Type 0
IsItem [] = ⊥
IsItem (c ∷ s) = c ≡ b'_'

text_eq-append_item :
    (a b s t : Text)
    → Digits a
    → Digits b
    → IsItem s
    → IsItem t
    → text_eq (a ++ s) (b ++ t) ≡ (text_eq a b && text_eq s t)
unfolding text_eq
text_eq-append_item [] [] s t ha hb hs ht = refl
text_eq-append_item [] (d ∷ b) [] t ha hb hs ht = absurd hs
text_eq-append_item [] (d ∷ b) (c ∷ s) t ha hb hs ht = ground arith
text_eq-append_item (c ∷ a) [] s [] ha hb hs ht = absurd ht
text_eq-append_item (c ∷ a) [] s (d ∷ t) ha hb hs ht = ground arith
text_eq-append_item (c ∷ a) (d ∷ b) s t ha hb hs ht =
    ground (arith, text_eq-append_item a b s t ha.1 hb.1 hs ht)

pub file_key_ids :
    (a b s t : Text)
    → Digits a
    → Digits b
    → IsItem s
    → IsItem t
    → text_eq (generate_file_key a s) (generate_file_key b t) ≡ (text_eq a b && text_eq s t)
unfolding generate_file_key
file_key_ids a b s t ha hb hs ht =
    text_eq-append_left prefix_file (a ++ s) (b ++ t) ∙ text_eq-append_item a b s t ha hb hs ht

pub dir_key_ids :
    (a b s t : Text)
    → Digits a
    → Digits b
    → IsItem s
    → IsItem t
    → text_eq (generate_dir_key a s) (generate_dir_key b t) ≡ (text_eq a b && text_eq s t)
unfolding generate_dir_key
dir_key_ids a b s t ha hb hs ht =
    text_eq-append_left prefix_dir (a ++ s) (b ++ t) ∙ text_eq-append_item a b s t ha hb hs ht

pub user_key_ids :
    (a b s t : Text)
    → Digits a
    → Digits b
    → IsItem s
    → IsItem t
    → text_eq (generate_user_key a s) (generate_user_key b t) ≡ (text_eq a b && text_eq s t)
unfolding generate_user_key
user_key_ids a b s t ha hb hs ht =
    text_eq-append_left prefix_user (a ++ s) (b ++ t) ∙ text_eq-append_item a b s t ha hb hs ht

pub user_key-dir_key :
    (a s b t : Text) → text_eq (generate_dir_key a s) (generate_user_key b t) ≡ false
unfolding generate_user_key generate_dir_key text_eq
user_key-dir_key a s b t = refl

pub user_key-file_key :
    (a s b t : Text) → text_eq (generate_file_key a s) (generate_user_key b t) ≡ false
unfolding generate_user_key generate_file_key text_eq
user_key-file_key a s b t = refl

pub dir_key-file_key :
    (a s b t : Text) → text_eq (generate_file_key a s) (generate_dir_key b t) ≡ false
unfolding generate_dir_key generate_file_key text_eq
dir_key-file_key a s b t = refl

pub file_key-dir_key :
    (a s b t : Text) → text_eq (generate_dir_key a s) (generate_file_key b t) ≡ false
unfolding generate_dir_key generate_file_key text_eq
file_key-dir_key a s b t = refl

pub file_key-ticket :
    (s b t : Text) → text_eq (generate_ticket_key s) (generate_file_key b t) ≡ false
unfolding generate_ticket_key generate_file_key text_eq
file_key-ticket s b t = refl

pub user_key-ticket :
    (s b t : Text) → text_eq (generate_ticket_key s) (generate_user_key b t) ≡ false
unfolding generate_ticket_key generate_user_key text_eq
user_key-ticket s b t = refl

pub dir_key-ticket : (s b t : Text) → text_eq (generate_ticket_key s) (generate_dir_key b t) ≡ false
unfolding generate_ticket_key generate_dir_key text_eq
dir_key-ticket s b t = refl

-- Two keys of files, with decimal ids and items that begin with `_`, are equal only for the same id
-- and the same item.
pub file_key_injective :
    (a b s t : Text)
    → Digits a
    → Digits b
    → IsItem s
    → IsItem t
    → generate_file_key a s ≡ generate_file_key b t
    → (a ≡ b) × (s ≡ t)
file_key_injective a b s t ha hb hs ht e =
    let both : (text_eq a b && text_eq s t) ≡ true =
      sym (file_key_ids a b s t ha hb hs ht) ∙ (text_eq_iff _ _).1 e in
    ((text_eq_iff a b).0 (ground arith), (text_eq_iff s t).0 (ground arith))
