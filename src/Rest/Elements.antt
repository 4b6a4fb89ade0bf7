-- ===== src/Rest/Elements.antt =====
-- ListInfoElemNode, server/src/rest/list_info_elem_node.cc: what is known of one file or directory.
use tp.Common.{none, some, [], ◌∷◌, ◌++◌, ◌||◌, length, map, if◌then◌else◌}
use tp.Text.{Text, text_eq, codes}
use tp.Text.Decimal.{to_string}
use tp.World.{Platform, M, pure, attempt, ◌>>=◌}
use tp.Dispatcher.Records.{UserProfile, DirectoryView, FileView}
use tp.Dispatcher.Accounts
use tp.Dispatcher.Listing
use tp.Rest.Connection.{reply, status_code_ok, status_code_no_content, status_code_bad_request}
use tp.Rest.Node.{Handler, Node, node_at, uri_item, or_reply}
use tp.Rest.Json.{member, user_json, list_json, comma}
use tp.Rest.Listing.{empty_list}

-- A name and an e-mail address; "updatedBy" has the address of the owner.
abbrev person_json : UserProfile → Text → Text
person_json u email =
    codes "{"
    ++ member "firstName" u.first_name
    ++ comma
    ++ member "lastName" u.last_name
    ++ comma
    ++ member "email" email
    ++ codes "}"

-- The fields of the element that is described, as texts.
pub record Described : Type 0 where
  pub name : Text
  pub size : Text
  pub kind : Text
  pub shared : Text
  pub date : Text
  pub items : Text
  pub tags : Text

unfoldable pub described_json : Text → UserProfile → UserProfile → Described → Text → Text
described_json id owner updated d collaborators =
    codes "{\"owner\":"
    ++ person_json owner owner.email
    ++ codes ",\"file\":{"
    ++ member "id" id
    ++ comma
    ++ member "name" d.name
    ++ comma
    ++ member "size" d.size
    ++ comma
    ++ member "type" d.kind
    ++ comma
    ++ member "shared" d.shared
    ++ comma
    ++ member "lastModDate" d.date
    ++ comma
    ++ member "cantItems" d.items
    ++ codes "},\"updatedBy\":"
    ++ person_json updated owner.email
    ++ codes ",\"collaborators\":"
    ++ collaborators
    ++ codes ","
    ++ member "tags" d.tags
    ++ codes "}"

unfoldable pub described_file : FileView → Described
described_file f = record {
  name = f.name;
  size = f.size;
  kind = codes "a";
  shared = (elim f.shared_users [ [] ↦ codes "false" | _ ∷ _ ↦ codes "true" ]);
  date = f.date_last_mod;
  items = codes "0";
  tags = f.tags;
}

unfoldable pub described_directory : DirectoryView → Described
described_directory d = record {
  name = d.name;
  size = d.size;
  kind = codes "d";
  shared = codes "false";
  date = d.date_last_mod;
  items = to_string (length d.directory_element_info);
  tags = d.tags;
}

module _ ⦃P : Platform⦄ where
  -- The collaborators are read as those of a file also where the id is that of a directory.
  unfoldable pub collaborators_json : Text → Text → M Text
  collaborators_json user_id id = do
    answer ← attempt (Listing.get_file_info user_id id)
    pure (
        list_json
          (elim answer [ none ↦ [] | some file_info ↦ map user_json file_info.shared_users ]))

  -- What the branches for files and for directories share: the owner, and the last one to change it.
  unfoldable pub describe : Text → Text → Text → Text → Described → M Text
  describe user_id id owner last d = do
    user_info ← Accounts.get_user_info owner
    user_info_updated ← Accounts.get_user_info last
    collaborators ← collaborators_json user_id id
    pure (described_json id user_info user_info_updated d collaborators)

  unfoldable pub describe_element : Text → Text → Text → M Text
  describe_element field user_id id =
      if text_eq field (codes "file")
      then (do
        file_info ← Listing.get_file_info user_id id
        describe user_id id file_info.owner file_info.user_last_mod (described_file file_info))
      else (do
        dir_info ← Listing.get_directory_info user_id id
        describe user_id id dir_info.owner dir_info.owner (described_directory dir_info))

  -- `ListInfoElemNode::executeGet`
  unfoldable pub list_info_elem_get : Handler
  list_info_elem_get conn = do
    field ← uri_item 4 conn
    (if text_eq field (codes "file") || text_eq field (codes "dir")
        then (do
          user_id ← uri_item 3 conn
          id ← uri_item 5 conn
          or_reply (reply status_code_no_content empty_list) (describe_element field user_id id)
              (λ item. pure (reply status_code_ok item)))
        else pure (reply status_code_bad_request empty_list))

  unfoldable pub list_info_elem_node : Node
  list_info_elem_node = record (node_at 3 empty_list) { execute_get = list_info_elem_get }
