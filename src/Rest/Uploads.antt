-- ===== src/Rest/Uploads.antt =====
-- ReceiveFileNode::executePost, server/src/rest/receive_file_node.cc, at the quota.
use tp.Common.{
  false, ◌||◌, arith, ℕ, ◌≡◌, refl, ap, ◌∙◌, Option, none, true, ◌+◌, ◌<◌, ◌%◌, ◌==◌, ltb, List, [],
  ◌∷◌, length, some,
}
use tp.Text.{Text, text_eq, codes}
use tp.Text.Decimal.{stoul, to_string, value, word, stoul-to_string}
use tp.World.{
  Platform, World, M, done, crashed, pure, crash, undefined_behaviour, endless_loop, attempt, ◌>>=◌,
}
use tp.Data.Constants.{status_max_quota_exceeded}
use tp.Data.Users
use tp.Data.Users.{UserInfo}
use tp.Dispatcher.Quota.{new_file_over_quota}
use tp.Rest.Connection.{
  Connection, Part, get_multipart_data, reply, split, at, status_code_no_content,
}
use tp.Rest.Node.{uri_item, or_reply, on_copy}
use tp.Rest.Transfers.{
  first_part, next_part, file_loop, file_loop_exact, find_file_part, receive_file_post,
  receive_default,
}

-- The parts of the URL of an upload.
abbrev pub upload_parts : Text → Text → List Text
upload_parts user_id dir_id =
    [] ∷ codes "file" ∷ codes "users" ∷ user_id ∷ codes "dir" ∷ dir_id ∷ []

module _ ⦃P : Platform⦄ where
  found_part :
      (conn : Connection) (o : Option Part)
      → file_loop 1 conn (first_part conn) ≡ o
      → find_file_part conn
        ≡ elim o as (λ _. M Part) [ none ↦ crash endless_loop | some part ↦ pure part ]
  unfolding find_file_part next_part on_copy get_multipart_data
  found_part conn o e =
      ap
        (λ (o : Option Part). elim o as (λ _. M Part) [
          | none ↦ crash endless_loop
          | some part ↦ pure part
        ])
        e

  -- The first part, where it ends the loop.
  find_file_part-first :
      (conn : Connection)
      → (length (first_part conn).content == 0 || text_eq (first_part conn).var_name (codes "file"))
        ≡ true
      → find_file_part conn ≡ pure (first_part conn)
  find_file_part-first conn ends =
      found_part conn (some (first_part conn)) (file_loop_exact 1 conn ∙ ground arith)

  -- Behind the end of a list of less than two texts.
  at-short :
      {B : Type 0} (xs : List Text) (next : Text → M B) (w : World)
      → length xs < 2
      → (at xs 0 >>= λ _. at xs 1 >>= next) w ≡ (crashed undefined_behaviour, w)
  unfolding at pure crash ◌>>=◌
  at-short [] next w h = refl
  at-short (x ∷ []) next w h = refl
  at-short (x ∷ y ∷ xs) next w h = absurd (omega arith)

  -- An upload to a directory ends in undefined behaviour, with nothing changed, where the first part
  -- is empty or named "file" and the name of its file has no extension: the log reads the extension
  -- before the size is tested.
  pub upload_undefined :
      (conn : Connection) (user_id dir_id : Text) (w : World)
      → split conn.uri b'/' ≡ upload_parts user_id dir_id
      → (length (first_part conn).content == 0 || text_eq (first_part conn).var_name (codes "file"))
        ≡ true
      → length (split (first_part conn).file_name b'.') < 2
      → receive_file_post conn w ≡ (crashed undefined_behaviour, w)
  unfolding receive_file_post uri_item at pure text_eq ◌>>=◌
  upload_undefined conn user_id dir_id w url ends short =
      rw (url, find_file_part-first conn ends)
        (at-short (split (first_part conn).file_name b'.') _ w short)

  -- An upload of a file with a name and an extension, whose bytes and the used quota add up, modulo
  -- 2 ^ 64, to more than the quota of a user, is answered with the status 204 and changes nothing but
  -- `status`, where the file is the first part of the request and the information of the user can be
  -- read.
  pub upload_over_quota :
      (conn : Connection) (user_id dir_id name extension : Text) (info : UserInfo) (used : ℕ)
      (w : World)
      → split conn.uri b'/' ≡ upload_parts user_id dir_id
      → text_eq (first_part conn).var_name (codes "file") ≡ true
      → (length (first_part conn).content == 0) ≡ false
      → split (first_part conn).file_name b'.' ≡ name ∷ extension ∷ []
      → length (first_part conn).content < word
      → Users.get_user_info user_id w ≡ (done info, w)
      → stoul info.user_quota_used ≡ value used
      → ltb w.max_user_quota ((used + length (first_part conn).content) % word) ≡ true
      → receive_file_post conn w ≡ (
        done (reply status_code_no_content receive_default),
        record w { status = status_max_quota_exceeded },
      )
  unfolding receive_file_post uri_item at or_reply attempt pure text_eq ◌>>=◌
  upload_over_quota conn user_id dir_id name extension info used w url named full parts small read u
        over =
      rw
        (
          url,
          find_file_part-first conn (rw (full, named) refl),
          full,
          parts,
          new_file_over_quota user_id (first_part conn).file_name extension conn.date
              (first_part conn).content (to_string (length (first_part conn).content)) dir_id info
              used (length (first_part conn).content) w read u
              (stoul-to_string (length (first_part conn).content) small) over,
        )
        refl
