-- ===== src/Rest/Frames/Queries.antt =====
-- The methods that list, search and send.
use tp.Common.{String, List, [], ◌∷◌}
use tp.Text.{Text}
use tp.World.{Platform, M}
use tp.Db.Keeps.{Keeps, Keeps-pure, Keeps-bind}
use tp.Data.Keys.Credentials.{IsCredential}
use tp.Dispatcher.Records.{InfoElement}
use tp.Dispatcher.Frames.Views.{
  Keeps-view_user, Keeps-view_file, Keeps-view_directory, Keeps-get_deleted_files,
}
use tp.Dispatcher.Frames.Searches.{
  Keeps-search_by_user, Keeps-get_tags, Keeps-search_emails, Keeps-get_owners,
}
use tp.Dispatcher.Frames.Transfers.{
  Keeps-get_user_image, Keeps-get_file_stream, Keeps-get_dir_stream,
}
use tp.Rest.Connection.{Connection, Sent, send_content_type}
use tp.Rest.Listing.{version_of, element_rows, info_get, info_trash_get}
use tp.Rest.Searching.{parameter_search, search_owner_get}
use tp.Rest.Sharing.{search_users_get, list_owners_get, collaborators_url, list_collaborators_get}
use tp.Rest.Tags.{tags_url, element_tags, list_tags_get, list_tags_user_get}
use tp.Rest.Elements.{Described, collaborators_json, describe, describe_element, list_info_elem_get}
use tp.Rest.Users.{profile_get}
use tp.Rest.Transfers.{users_url, multipart_reply, send_file_get, send_dir_get}
use tp.Rest.Frames.{rest_rules, Keeps-at}

-- The tests of a URL that several nodes share.
module _ ⦃P : Platform⦄ {k : Text} where
  pub Keeps-users_url :
      (label : String) (refusal : List Sent) (conn : Connection)
      (serve : Text → Text → M (List Sent))
      → ((user id : Text) → Keeps k (serve user id))
      → Keeps k (users_url label refusal conn serve)
  unfolding users_url
  Keeps-users_url label refusal conn serve ks = search (rest_rules, ks) depth 12

  Keeps-multipart_reply : (stream : Text) → Keeps k (multipart_reply stream)
  unfolding multipart_reply send_content_type
  Keeps-multipart_reply stream = search (rest_rules, Keeps-at)

  pub Keeps-tags_url :
      (response : Text) (conn : Connection) (serve : Text → Text → Text → M (List Sent))
      → ((field user id : Text) → Keeps k (serve field user id))
      → Keeps k (tags_url response conn serve)
  unfolding tags_url
  Keeps-tags_url response conn serve ks = search (rest_rules, ks) depth 12

  pub Keeps-collaborators_url :
      (conn : Connection) (serve : Text → Text → M (List Sent))
      → ((user id : Text) → Keeps k (serve user id))
      → Keeps k (collaborators_url conn serve)
  unfolding collaborators_url
  Keeps-collaborators_url conn serve ks = search (rest_rules, ks) depth 14

  pub Keeps-parameter_search :
      (label key : String) (f : Text → Text → M (List InfoElement)) (conn : Connection)
      → ((user text : Text) → Keeps k (f user text))
      → Keeps k (parameter_search label key f conn)
  unfolding parameter_search
  Keeps-parameter_search label key f conn kf = search (rest_rules, kf) depth 14

module _ ⦃P : Platform⦄ {k : Text} (c : IsCredential k) where
  Keeps-version_of :
      (user_id : Text) (e : InfoElement) (version : Text) → Keeps k (version_of user_id e version)
  unfolding version_of
  Keeps-version_of user_id e version = search (rest_rules, Keeps-view_file c)

  Keeps-element_rows :
      (user_id : Text) (es : List InfoElement) (version : Text)
      → Keeps k (element_rows user_id es version)
  unfolding element_rows
  Keeps-element_rows user_id [] version = Keeps-pure []
  Keeps-element_rows user_id (e ∷ es) version =
      Keeps-bind _ _ (Keeps-version_of user_id e version)
        λ v. Keeps-bind _ _ (Keeps-element_rows user_id es v) λ rows. Keeps-pure _

  pub Keeps-info_get : (conn : Connection) → Keeps k (info_get conn)
  unfolding info_get
  Keeps-info_get conn = search (rest_rules, Keeps-view_directory c, Keeps-element_rows) depth 14

  pub Keeps-info_trash_get : (conn : Connection) → Keeps k (info_trash_get conn)
  unfolding info_trash_get
  Keeps-info_trash_get conn = search (rest_rules, Keeps-get_deleted_files c) depth 14

  pub Keeps-search_owner_get : (conn : Connection) → Keeps k (search_owner_get conn)
  unfolding search_owner_get
  Keeps-search_owner_get conn = search (rest_rules, Keeps-search_by_user c) depth 14

  pub Keeps-search_users_get : (conn : Connection) → Keeps k (search_users_get conn)
  unfolding search_users_get
  Keeps-search_users_get conn = search (rest_rules, Keeps-search_emails c) depth 14

  pub Keeps-list_owners_get : (conn : Connection) → Keeps k (list_owners_get conn)
  unfolding list_owners_get
  Keeps-list_owners_get conn = search (rest_rules, Keeps-get_owners c) depth 14

  pub Keeps-list_collaborators_get : (conn : Connection) → Keeps k (list_collaborators_get conn)
  unfolding list_collaborators_get
  Keeps-list_collaborators_get conn =
      search (rest_rules, Keeps-collaborators_url, Keeps-view_file c) depth 14

  Keeps-element_tags : (field user id : Text) → Keeps k (element_tags field user id)
  unfolding element_tags
  Keeps-element_tags field user id =
      search (rest_rules, Keeps-view_file c, Keeps-view_directory c) depth 14

  pub Keeps-list_tags_get : (conn : Connection) → Keeps k (list_tags_get conn)
  unfolding list_tags_get
  Keeps-list_tags_get conn = search (rest_rules, Keeps-tags_url, Keeps-element_tags) depth 14

  pub Keeps-list_tags_user_get : (conn : Connection) → Keeps k (list_tags_user_get conn)
  unfolding list_tags_user_get
  Keeps-list_tags_user_get conn = search (rest_rules, Keeps-get_tags c) depth 14

  Keeps-collaborators_json : (user_id id : Text) → Keeps k (collaborators_json user_id id)
  unfolding collaborators_json
  Keeps-collaborators_json user_id id = search (rest_rules, Keeps-view_file c)

  Keeps-describe :
      (user_id id owner last : Text) (d : Described) → Keeps k (describe user_id id owner last d)
  unfolding describe
  Keeps-describe user_id id owner last d =
      search (rest_rules, Keeps-view_user c, Keeps-collaborators_json) depth 12

  Keeps-describe_element : (field user_id id : Text) → Keeps k (describe_element field user_id id)
  unfolding describe_element
  Keeps-describe_element field user_id id =
      search (rest_rules, Keeps-view_file c, Keeps-view_directory c, Keeps-describe) depth 12

  pub Keeps-list_info_elem_get : (conn : Connection) → Keeps k (list_info_elem_get conn)
  unfolding list_info_elem_get
  Keeps-list_info_elem_get conn = search (rest_rules, Keeps-describe_element) depth 14

  pub Keeps-profile_get : (conn : Connection) → Keeps k (profile_get conn)
  unfolding profile_get
  Keeps-profile_get conn = search (rest_rules, Keeps-view_user c, Keeps-get_user_image) depth 14

  pub Keeps-send_file_get : (conn : Connection) → Keeps k (send_file_get conn)
  unfolding send_file_get
  Keeps-send_file_get conn =
      search (rest_rules, Keeps-users_url, Keeps-get_file_stream c, Keeps-multipart_reply) depth 14

  pub Keeps-send_dir_get : (conn : Connection) → Keeps k (send_dir_get conn)
  unfolding send_dir_get
  Keeps-send_dir_get conn =
      search (rest_rules, Keeps-users_url, Keeps-get_dir_stream c, Keeps-multipart_reply) depth 14
