-- ===== src/Rest/Users.antt =====
-- The nodes of accounts, server/src/rest: token_node.cc, signup_node.cc, profile_node.cc,
-- update_photo_node.cc, update_userfullname_node.cc and update_location_node.cc.
use tp.Common.{Bool, true, Option, none, some, List, [], ◌++◌, ◌==◌, ◌||◌, length, if◌then◌else◌}
use tp.Text.{Text, codes}
use tp.Text.Decimal.{to_string}
use tp.Util.Md5.Rounds.{md5_str}
use tp.World.{Platform, M, pure, crash, attempt, endless_loop, ◌>>=◌}
use tp.Dispatcher.Records.{UserProfile}
use tp.Dispatcher.Accounts
use tp.Rest.Connection.{
  Connection, Sent, reply, split, c_str, get_body_field, get_body_json, as_string, status_code_ok,
  status_code_no_content, status_code_bad_request,
}
use tp.Rest.Node.{Handler, Node, node_at, uri_item, or_reply}
use tp.Rest.Json.{member, comma, result_ok, result_failed}

-- The default response of TokenNode, and its answer to a log in.
abbrev token_text : Text → Text → Text → Text → Text
token_text user_id email token quota =
    codes "{ \"userId\": \""
    ++ user_id
    ++ codes "\",  \"email\": \""
    ++ email
    ++ codes "\",  \"token\": \""
    ++ token
    ++ codes "\", \"quotaAvailable\": \""
    ++ quota

abbrev pub token_default : Text
token_default = token_text (codes "0") [] [] (codes "0") ++ codes "\"}"

abbrev pub profile_default : Text
profile_default =
    codes "[{ \"firstname\": \"0\",  \"lastname\": \"\",\"email\": \"\" ,  \"photo\": \"\",  "
    ++ codes "\"GPSLatitude\": \"0\", \"GPSLongitude\": \"0\",  \"userId\": \"0\",  "
    ++ codes "\"quotaUsed\": \"0\",  \"quotaTotal\": \"0\",  \"quotaUsagePercent\": \"0\"}]"

unfoldable pub profile_json : Text → UserProfile → Text → Text
profile_json user_id u image =
    codes "{"
    ++ member "firstname" u.first_name
    ++ comma
    ++ member "lastname" u.last_name
    ++ comma
    ++ member "email" u.email
    ++ comma
    ++ member "photo" (c_str image)
    ++ comma
    ++ member "GPSLatitude" u.gps_lat
    ++ comma
    ++ member "GPSLongitude" u.gps_lon
    ++ comma
    ++ member "userId" user_id
    ++ comma
    ++ member "quotaUsed" u.user_quota_used
    ++ comma
    ++ member "quotaTotal" u.user_quota_total
    ++ comma
    ++ member "quotaUsagePercent" u.user_quota_used_percentage
    ++ codes "}"

module _ ⦃P : Platform⦄ where
  -- `CreateToken`, of TokenNode and of SignupNode. The rounds of `md5Str` end, so that the last case
  -- is not met.
  unfoldable pub create_token : Connection → Text → M Text
  create_token conn email =
      elim (md5_str (conn.first_random ++ email ++ conn.seconds ++ conn.second_random)) [
        | some out ↦ pure out
        | none ↦ crash endless_loop
      ]

  -- `TokenNode::executePost`
  unfoldable pub token_post : Handler
  token_post conn = do
    email ← get_body_field (codes "email") conn
    password ← get_body_field (codes "password") conn
    new_token ← create_token conn email
    or_reply (reply status_code_no_content token_default) (Accounts.log_in email password new_token)
        (λ (user_id, quota_available). pure (
          reply status_code_ok (
            token_text (c_str user_id) (c_str email) (c_str new_token) (c_str quota_available)
            ++ codes "\" }")))

  -- `TokenNode::auth`
  unfoldable pub token_auth : Connection → M Bool
  token_auth conn = do
    email ← get_body_field (codes "email") conn
    password ← get_body_field (codes "password") conn
    pure true

  unfoldable pub token_node : Node
  token_node = record (node_at 2 token_default) {
    get_user_id = λ _. pure (codes "0");
    auth = token_auth;
    execute_post = token_post;
  }

  -- `SignupNode::executePost`
  unfoldable pub signup_post : Handler
  signup_post conn = do
    first_name ← get_body_field (codes "firstname") conn
    last_name ← get_body_field (codes "lastname") conn
    email ← get_body_field (codes "email") conn
    password ← get_body_field (codes "password") conn
    (if length email == 0 || length password == 0
        then pure (reply status_code_bad_request result_failed)
        else (do
          new_token ← create_token conn email
          or_reply (reply status_code_no_content result_failed)
              (Accounts.sign_up email password first_name last_name (codes "0.00") (codes "0.00")
                new_token conn.date)
              (λ _. pure (reply status_code_ok result_ok))))

  unfoldable pub signup_node : Node
  signup_node = record (node_at 2 result_failed) {
    get_user_id = λ _. pure (codes "0");
    auth = λ _. pure true;
    execute_post = signup_post;
  }

  -- `ProfileNode::executeGet`
  unfoldable pub profile_get : Handler
  profile_get conn =
      if length (split conn.uri b'/') == 3
      then (do
        user_id ← uri_item 2 conn
        or_reply (reply status_code_no_content profile_default) (Accounts.get_user_info user_id)
            (λ user_info. do
              user_image ← attempt (Accounts.get_user_image user_id)
              pure (
                  reply status_code_ok (
                    profile_json user_id user_info
                      (elim user_image [ none ↦ [] | some image ↦ image ])))))
      else pure (reply status_code_bad_request profile_default)

  unfoldable pub profile_node : Node
  profile_node = record (node_at 2 profile_default) { execute_get = profile_get }

  -- `{"resultCode": "1"}` if a call succeeds, and the default response of the same nodes if not.
  abbrev pub result_reply : {A : Type 0} → M A → M (List Sent)
  result_reply m =
      or_reply (reply status_code_no_content result_failed) m
        (λ _. pure (reply status_code_ok result_ok))

  -- `UpdatePhotoNode::executePut`
  unfoldable pub update_photo_put : Handler
  update_photo_put conn =
      if length (split conn.uri b'/') == 3
      then (do
        user_id ← uri_item 2 conn
        photo_stream ← get_body_field (codes "photoStream") conn
        result_reply
            (Accounts.set_user_image user_id photo_stream (to_string (length photo_stream))))
      else pure (reply status_code_bad_request result_failed)

  unfoldable pub update_photo_node : Node
  update_photo_node = record (node_at 2 result_failed) { execute_put = update_photo_put }

  -- The fields of a `user_info` that was not filled are empty.
  abbrev user_field : (UserProfile → Text) → Option UserProfile → Text
  user_field field none = []
  user_field field (some u) = field u

  -- The reply that precedes the second one where the user is not found.
  abbrev unfound_reply : Option UserProfile → List Sent
  unfound_reply none = reply status_code_no_content result_failed
  unfound_reply (some _) = []

  -- `UpdateUserFullNameNode::executePut`, which goes on where the user is not found, and writes the
  -- latitude as the longitude too.
  unfoldable pub update_userfullname_put : Handler
  update_userfullname_put conn =
      if length (split conn.uri b'/') == 3
      then (do
        user_id ← uri_item 2 conn
        first_name ← get_body_field (codes "firstName") conn
        last_name ← get_body_field (codes "lastName") conn
        user_info ← attempt (Accounts.get_user_info user_id)
        sent ← result_reply (
            Accounts.modify_user_info user_id (user_field UserProfile.email user_info) first_name
              last_name (user_field UserProfile.gps_lat user_info)
              (user_field UserProfile.gps_lat user_info))
        pure (unfound_reply user_info ++ sent))
      else pure (reply status_code_bad_request result_failed)

  unfoldable pub update_userfullname_node : Node
  update_userfullname_node = record (node_at 2 result_failed) {
    execute_put = update_userfullname_put;
  }

  -- `UpdateLocationNode::executePut`
  unfoldable pub update_location_put : Handler
  update_location_put conn =
      if length (split conn.uri b'/') == 4
      then (do
        user_id ← uri_item 3 conn
        root ← get_body_json conn
        gps_latitude ← as_string (root.field (codes "GPSLatitude"))
        gps_longitude ← as_string (root.field (codes "GPSLongitude"))
        user_info ← attempt (Accounts.get_user_info user_id)
        result_reply (
            Accounts.modify_user_info user_id (user_field UserProfile.email user_info)
              (user_field UserProfile.first_name user_info)
              (user_field UserProfile.last_name user_info) gps_latitude gps_longitude))
      else pure (reply status_code_bad_request result_failed)

  unfoldable pub update_location_node : Node
  update_location_node = record (node_at 3 result_failed) { execute_put = update_location_put }
