-- ===== src/Rest/Legible/Routed.antt =====
-- A request whose URL and query are long enough reaches a node whose test has an answer, or none:
-- the branches of handlerCaller, server/src/web_server.cc.
use native.Mathlib.Nat.{le_trans}
use tp.Common.{ℕ, ◌<◌, ◌≤◌, ◌≡◌, refl, Bool, true, false, List, [], ◌∷◌, length, String, arith}
use tp.Text.{codes}
use tp.World.{Platform, M, pure}
use tp.World.Returning.{Returning, Returning-pure, Returning-if, Returning-bind}
use tp.Dispatcher.Listing.{starts_with}
use tp.Rest.Connection.{Connection, split}
use tp.Rest.Node.{Node, uri_item, check_authorization}
use tp.Rest.Guarded.Branches.{NeedsToken}
use tp.Rest.Legible.{
  parts_read, query_legible, parts_read-info, parts_read-three, parts_read-four, clash_all,
  short_starts, Returning-uri_item, Returning-get_parameter, Returning-check_authorization,
}
use tp.Rest.Listing.{info_node, info_trash_node}
use tp.Rest.Searching.{
  search_filename_node, search_extension_node, search_tag_node, search_owner_node,
}
use tp.Rest.Users.{profile_node, update_photo_node, update_userfullname_node, update_location_node}
use tp.Rest.Trash.{
  delete_trash_node, delete_file_trash_node, restore_trash_node, restore_file_trash_node,
}
use tp.Rest.Transfers.{receive_file_node, send_file_node, send_dir_node, delete_file_node}
use tp.Rest.Directories.{create_dir_node, delete_dir_node, modify_name_dir_node}
use tp.Rest.Tags.{list_tags_node, list_tags_user_node, update_tags_node}
use tp.Rest.Sharing.{
  search_users_node, list_owners_node, list_collaborators_node, update_collaborators_node,
}
use tp.Rest.Elements.{list_info_elem_node}
use tp.Rest.Routes.{
  Route, serve, ignore, not_processed, first_route, and_parameter, and_no_parameter, uri_starts,
  info_branches, info_route, users_branches, users_route, tags_branches, collaborators_branches,
  branches,
}

module _ ⦃P : Platform⦄ (conn : Connection) where
  -- The test of the node has an answer.
  abbrev pub Answers : Route → Type 0
  Answers (serve node) = Returning (λ _. Unit) (node.auth conn)
  Answers ignore = Unit
  Answers not_processed = Unit

  -- A branch whose condition has an answer, and its route where that is true.
  abbrev Settled : M Bool × M Route → Type 0
  Settled (condition, route) =
      Returning (λ (b : Bool). b ≡ true → Returning Answers route) condition

  record AllSettled (bs : List (M Bool × M Route)) : Type 0 where
    routed : Returning Answers (first_route bs)

  infixr 5 ◌▹◌
  -- The branches one by one.
  ◌▹◌ :
      {b : M Bool × M Route} {bs : List (M Bool × M Route)}
      → Settled b
      → AllSettled bs
      → AllSettled (b ∷ bs)
  unfolding first_route
  ◌▹◌ {b = (condition, route)} h rest = record {
    routed =
        Returning-bind (λ (c : Bool). c ≡ true → Returning Answers route) Answers condition _ h
          λ c rc. Returning-if Answers c _ _ rc (λ _. rest.routed);
  }

  no_branch : AllSettled []
  unfolding first_route
  no_branch = record { routed = Returning-pure Answers not_processed tt }

  Returning-first_route :
      (bs : List (M Bool × M Route)) → AllSettled bs → Returning Answers (first_route bs)
  Returning-first_route bs h = h.routed

  pure_branch : (b : Bool) (route : M Route) → Returning Answers route → Settled (pure b, route)
  pure_branch b route r = Returning-pure _ b λ _. r

  closed_branch : (b : Bool) (route : M Route) → b ≡ false → Settled (pure b, route)
  closed_branch true route h = cc
  closed_branch false route h = Returning-pure _ false λ is. cc

  uri_branch :
      (start : String) (route : M Route)
      → (starts_with (codes start) conn.uri ≡ true → Returning Answers route)
      → Settled (uri_starts start conn, route)
  unfolding uri_starts
  uri_branch start route r = Returning-pure _ _ r

  closed_uri_branch :
      (start : String) (route : M Route)
      → starts_with (codes start) conn.uri ≡ false
      → Settled (uri_starts start conn, route)
  unfolding uri_starts
  closed_uri_branch start route h = closed_branch _ route h

  node_at_part :
      (i : ℕ) (node : Node)
      → node.auth ≡ check_authorization (uri_item i)
      → i < length (split conn.uri b'/')
      → Returning Answers (pure (serve node))
  node_at_part i node checked h =
      Returning-pure Answers (serve node) (rw checked (Returning-check_authorization i conn h))

  module _ (legible_query : query_legible conn.query_string ≡ true) where
    parameter_branch :
        (b : Bool) (key : String) (route : M Route)
        → Returning Answers route
        → Settled (and_parameter b key conn, route)
    unfolding and_parameter
    parameter_branch b key route r =
        Returning-if _ b _ _
          (λ _.
            Returning-bind (λ _. Unit) _ _ _
              (Returning-get_parameter (codes key) conn legible_query)
              λ value _. pure_branch _ route r)
          (λ _. pure_branch _ route r)

    no_parameter_branch :
        (b : Bool) (key : String) (route : M Route)
        → Returning Answers route
        → Settled (and_no_parameter b key conn, route)
    unfolding and_no_parameter
    no_parameter_branch b key route r =
        Returning-if _ b _ _
          (λ _.
            Returning-bind (λ _. Unit) _ _ _
              (Returning-get_parameter (codes key) conn legible_query)
              λ value _. pure_branch _ route r)
          (λ _. pure_branch _ route r)

    Returning-info_route : 5 ≤ length (split conn.uri b'/') → Returning Answers (info_route conn)
    unfolding info_route info_branches info_trash_node info_node search_filename_node
        search_extension_node search_tag_node search_owner_node delete_trash_node
        delete_file_trash_node restore_file_trash_node restore_trash_node
    Returning-info_route h =
        Returning-bind (λ _. Unit) Answers _ _ (Returning-uri_item 4 conn (omega arith))
          λ field _.
            Returning-bind (λ _. Unit) Answers _ _
              (Returning-get_parameter (codes "fileIds") conn legible_query)
              λ logged _.
                let at_three = λ (node : Node) (c : node.auth ≡ check_authorization (uri_item 3)).
                  node_at_part 3 node c (omega arith) in
                Returning-first_route (info_branches field conn) (
                  pure_branch _ _ (at_three info_trash_node refl)
                  ▹ pure_branch _ _ (at_three info_node refl)
                  ▹ parameter_branch _ "name" _ (at_three search_filename_node refl)
                  ▹ parameter_branch _ "extension" _ (at_three search_extension_node refl)
                  ▹ parameter_branch _ "tagname" _ (at_three search_tag_node refl)
                  ▹ pure_branch _ _ (at_three search_owner_node refl)
                  ▹ no_parameter_branch _ "fileIds" _ (at_three delete_trash_node refl)
                  ▹ pure_branch _ _ (at_three delete_file_trash_node refl)
                  ▹ parameter_branch _ "fileIds" _ (at_three restore_file_trash_node refl)
                  ▹ pure_branch _ _ (at_three restore_trash_node refl)
                  ▹ no_branch)

  module _ (h : 4 ≤ length (split conn.uri b'/')) where
    Returning-users_route : Returning Answers (users_route conn)
    unfolding users_route users_branches delete_file_node delete_dir_node create_dir_node
        send_file_node send_dir_node
    Returning-users_route =
        Returning-bind (λ _. Unit) Answers _ _ (Returning-uri_item 3 conn (omega arith))
          λ field _.
            let at_two = λ (node : Node) (c : node.auth ≡ check_authorization (uri_item 2)).
              node_at_part 2 node c (omega arith) in
            Returning-first_route (users_branches field conn) (
              pure_branch _ _ (at_two delete_file_node refl)
              ▹ pure_branch _ _ (at_two delete_dir_node refl)
              ▹ pure_branch _ _ (at_two create_dir_node refl)
              ▹ pure_branch _ _ (at_two send_file_node refl)
              ▹ pure_branch _ _ (at_two send_dir_node refl)
              ▹ no_branch)

    Returning-tags_route : Returning Answers (first_route (tags_branches conn))
    unfolding tags_branches list_tags_node list_tags_user_node update_tags_node
    Returning-tags_route = Returning-first_route (tags_branches conn) (
        pure_branch _ _ (node_at_part 3 list_tags_node refl (omega arith))
        ▹ pure_branch _ _ (node_at_part 3 list_tags_user_node refl (omega arith))
        ▹ pure_branch _ _ (node_at_part 3 update_tags_node refl (omega arith))
        ▹ no_branch)

    Returning-collaborators_route : Returning Answers (first_route (collaborators_branches conn))
    unfolding collaborators_branches list_collaborators_node update_collaborators_node
    Returning-collaborators_route = Returning-first_route (collaborators_branches conn) (
        pure_branch _ _ (node_at_part 3 list_collaborators_node refl (omega arith))
        ▹ pure_branch _ _ (node_at_part 3 update_collaborators_node refl (omega arith))
        ▹ no_branch)

  module _ (parts : parts_read conn.uri ≤ length (split conn.uri b'/')) where
    short_branch :
        (start : String) (node : Node)
        → node.auth ≡ check_authorization (uri_item 2)
        → Settled (uri_starts start conn, pure (serve node))
    short_branch start node c =
        uri_branch start _ λ _. node_at_part 2 node c (omega (arith, parts_read-three conn.uri))

    -- `four` says that the start is none of the short ones.
    long_branch :
        (start : String)
        → (starts_with (codes start) conn.uri ≡ true → 4 ≤ parts_read conn.uri)
        → (node : Node) → node.auth ≡ check_authorization (uri_item 3)
        → Settled (uri_starts start conn, pure (serve node))
    long_branch start four node c =
        uri_branch start _ λ starts. node_at_part 3 node c (omega (arith, four starts))

    pub Returning-branches :
        query_legible conn.query_string ≡ true
        → NeedsToken conn
        → Returning Answers (first_route (branches conn))
    unfolding branches receive_file_node profile_node update_photo_node update_userfullname_node
        list_owners_node search_users_node list_info_elem_node update_location_node
        modify_name_dir_node
    Returning-branches q n =
        let four =
          λ (start : String) (c : clash_all (codes start) short_starts ≡ true)
              (h : starts_with (codes start) conn.uri ≡ true).
            le_trans (parts_read-four (codes start) conn.uri c h) parts in
        Returning-first_route (branches conn) (
          closed_branch _ _ n.not_token
          ▹ uri_branch "/info/users" _
              (λ h. Returning-info_route q (le_trans (parts_read-info conn.uri h) parts))
          ▹ long_branch "/file/users" (parts_read-four _ _ refl) receive_file_node refl
          ▹ uri_branch "/users" _ (λ h. Returning-users_route (four "/users" refl h))
          ▹ closed_uri_branch "/signup" _ n.not_signup
          ▹ short_branch "/profile" profile_node refl
          ▹ short_branch "/photo" update_photo_node refl
          ▹ short_branch "/userfullname" update_userfullname_node refl
          ▹ uri_branch "/filetags/users/" _
              (λ h. Returning-tags_route (four "/filetags/users/" refl h))
          ▹ uri_branch "/revisions/users/" _ (λ _. Returning-pure Answers ignore tt)
          ▹ uri_branch "/fileInfo/user/" _
              (λ h. Returning-collaborators_route (four "/fileInfo/user/" refl h))
          ▹ long_branch "/owners/users/" (parts_read-four _ _ refl) list_owners_node refl
          ▹ parameter_branch q _ "q" _
              (node_at_part 2 search_users_node refl (omega (arith, parts_read-three conn.uri)))
          ▹ long_branch "/fileinfo/users/" (parts_read-four _ _ refl) list_info_elem_node refl
          ▹ long_branch "/location/users/" (parts_read-four _ _ refl) update_location_node refl
          ▹ long_branch "/filename/users/" (parts_read-four _ _ refl) modify_name_dir_node refl
          ▹ no_branch)
