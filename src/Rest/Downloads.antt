-- ===== src/Rest/Downloads.antt =====
-- SendFileNode::executeGet, server/src/rest/send_file_node.cc, with the content types of
-- server/src/mg_connection_w.cc.
use tp.Common.{◌≡◌, refl, List, [], ◌∷◌}
use tp.Text.{Text, text_eq, codes}
use tp.World.{Platform, World, done, crashed, undefined_behaviour, crash, pure, attempt, ◌>>=◌}
use tp.Dispatcher.Downloads
use tp.Rest.Connection.{Connection, at, split, get_parameter, send_content_type}
use tp.Rest.Node.{uri_item, or_reply}
use tp.Rest.Transfers.{users_url, multipart_reply, send_file_get}

-- The parts of the URL of a file.
abbrev pub file_parts : Text → Text → List Text
file_parts user_id file_id = [] ∷ codes "users" ∷ user_id ∷ codes "file" ∷ file_id ∷ []

module _ ⦃P : Platform⦄ where
  -- A download of a file ends in undefined behaviour where the file is found: the content type is
  -- read behind the end of the array of content types.
  pub download_undefined :
      (conn : Connection) (user_id file_id revision stream : Text) (w w1 : World)
      → split conn.uri b'/' ≡ file_parts user_id file_id
      → get_parameter (codes "version") conn w ≡ (done revision, w)
      → Downloads.get_file_stream user_id file_id revision w ≡ (done stream, w1)
      → send_file_get conn w ≡ (crashed undefined_behaviour, w1)
  unfolding send_file_get users_url uri_item at or_reply multipart_reply send_content_type attempt
      crash pure text_eq ◌>>=◌
  download_undefined conn user_id file_id revision stream w w1 url version found =
      rw (url, version, found) refl
