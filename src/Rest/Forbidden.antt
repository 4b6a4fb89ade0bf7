-- ===== src/Rest/Forbidden.antt =====
-- The nodes of server/src/rest that read or change one file, for a user who may not.
use tp.Common.{◌≡◌, refl, false, List, [], ◌∷◌, ◌||◌}
use tp.Text.{Text, text_eq, codes}
use tp.Text.KeyList.{tokens, contains}
use tp.World.{Platform, World, done, failed, pure, fail_with, attempt, ◌>>=◌}
use tp.Data.Constants.{status_user_forbidden}
use tp.Data.Files
use tp.Data.Files.{FileInfo}
use tp.Dispatcher.Listing
use tp.Dispatcher.Listing.{is_authorized}
use tp.Dispatcher.Downloads
use tp.Rest.Connection.{
  Connection, Sent, reply, split, at, get_parameter, get_body_field, status_code_no_content,
  status_code_internal_error,
}
use tp.Rest.Node.{Handler, uri_item, or_reply}
use tp.Rest.Json.{result_failed}
use tp.Rest.Listing.{empty_list}
use tp.Rest.Transfers.{users_url, delete_file_delete, send_file_get, send_default}
use tp.Rest.Tags.{
  tags_url, element_tags, list_tags_get, list_tags_default, write_tags, update_tags_put,
}
use tp.Rest.Directories.{rename_element, modify_name_dir_put}
use tp.Rest.Sharing.{collaborators_url, list_collaborators_get}
use tp.Rest.Elements.{describe_element, list_info_elem_get}

-- What is asked of a file: to delete it, to send it, its tags, new tags, a new name, its
-- collaborators, all that is known of it.
pub data FileEndpoint : Type 0 where
  remove send show_tags set_tags rename show_collaborators describe : FileEndpoint

-- The parts of the URL.
abbrev pub endpoint_parts : FileEndpoint → Text → Text → List Text
endpoint_parts remove user file = [] ∷ codes "users" ∷ user ∷ codes "file" ∷ file ∷ []
endpoint_parts send user file = [] ∷ codes "users" ∷ user ∷ codes "file" ∷ file ∷ []
endpoint_parts show_tags user file =
    [] ∷ codes "filetags" ∷ codes "users" ∷ user ∷ codes "file" ∷ file ∷ []
endpoint_parts set_tags user file =
    [] ∷ codes "filetags" ∷ codes "users" ∷ user ∷ codes "file" ∷ file ∷ []
endpoint_parts rename user file =
    [] ∷ codes "filename" ∷ codes "users" ∷ user ∷ codes "file" ∷ file ∷ []
endpoint_parts show_collaborators user file =
    [] ∷ codes "fileInfo" ∷ codes "user" ∷ user ∷ codes "files" ∷ file ∷ codes "collaborators" ∷ []
endpoint_parts describe user file =
    [] ∷ codes "fileinfo" ∷ codes "users" ∷ user ∷ codes "file" ∷ file ∷ []

-- The answer of the node to a failure.
abbrev pub endpoint_refusal : FileEndpoint → List Sent
endpoint_refusal remove = reply status_code_no_content result_failed
endpoint_refusal send = reply status_code_internal_error send_default
endpoint_refusal show_tags = reply status_code_no_content list_tags_default
endpoint_refusal set_tags = reply status_code_no_content result_failed
endpoint_refusal rename = reply status_code_no_content result_failed
endpoint_refusal show_collaborators = reply status_code_no_content empty_list
endpoint_refusal describe = reply status_code_no_content empty_list

module _ ⦃P : Platform⦄ where
  abbrev pub endpoint_handler : FileEndpoint → Handler
  endpoint_handler remove = delete_file_delete
  endpoint_handler send = send_file_get
  endpoint_handler show_tags = list_tags_get
  endpoint_handler set_tags = update_tags_put
  endpoint_handler rename = modify_name_dir_put
  endpoint_handler show_collaborators = list_collaborators_get
  endpoint_handler describe = list_info_elem_get

  -- What the node reads of the request before it asks for the file can be read.
  abbrev pub Readable : FileEndpoint → Connection → World → Type 0
  Readable send conn w = (v : Text) × (get_parameter (codes "version") conn w ≡ (done v, w))
  Readable set_tags conn w = (v : Text) × (get_body_field (codes "tags") conn w ≡ (done v, w))
  Readable rename conn w = (v : Text) × (get_body_field (codes "dirName") conn w ≡ (done v, w))
  Readable _ conn w = Unit

  module _ (user file : Text) (info : FileInfo) (w : World)
      (stored_info : Files.get_file_info file w ≡ (done info, w))
      (denied : (text_eq info.owner user || contains user (tokens info.users_shared)) ≡ false) where
    view_forbidden :
        Listing.get_file_info user file w ≡ (failed, record w { status = status_user_forbidden })
    unfolding Listing.get_file_info is_authorized fail_with ◌>>=◌
    view_forbidden = rw (stored_info, denied) refl

    stream_forbidden :
        (revision : Text)
        → Downloads.get_file_stream user file revision w
          ≡ (failed, record w { status = status_user_forbidden })
    unfolding Downloads.get_file_stream is_authorized fail_with ◌>>=◌
    stream_forbidden revision = rw (stored_info, denied) refl

    -- A request on a file whose information can be read, by a user who is neither the owner nor one
    -- that it is shared with, is answered as a failure, whichever node it is sent to, and changes
    -- nothing but `status`, where what the node reads of the request first can be read.
    pub forbidden_request :
        (e : FileEndpoint) (conn : Connection)
        → split conn.uri b'/' ≡ endpoint_parts e user file
        → Readable e conn w
        → endpoint_handler e conn w
          ≡ (done (endpoint_refusal e), record w { status = status_user_forbidden })
    unfolding users_url tags_url collaborators_url uri_item at or_reply attempt pure
        delete_file_delete send_file_get list_tags_get update_tags_put modify_name_dir_put
        list_collaborators_get list_info_elem_get element_tags write_tags rename_element
        describe_element text_eq ◌>>=◌
    forbidden_request remove conn url r = rw (url, view_forbidden) refl
    forbidden_request send conn url (v, version) = rw (url, version, stream_forbidden v) refl
    forbidden_request show_tags conn url r = rw (url, view_forbidden) refl
    forbidden_request set_tags conn url (v, tags) = rw (url, tags, view_forbidden) refl
    forbidden_request rename conn url (v, name) = rw (url, name, view_forbidden) refl
    forbidden_request show_collaborators conn url r = rw (url, view_forbidden) refl
    forbidden_request describe conn url r = rw (url, view_forbidden) refl
