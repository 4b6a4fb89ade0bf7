-- ===== src/Rest/Guarded.antt =====
-- Routes to nodes that ask for the token of the user that the URL names and that leave passwords and
-- tokens alone: one rule for each form of a branch of server/src/web_server.cc.
pub mod Nodes
pub mod Branches
use tp.Common.{
  String, ◌≡◌, refl, ap, ◌∙◌, ℕ, zero, suc, Bool, true, false, not, ◌&&◌, ◌==◌, Option, none, some,
  List, [], ◌∷◌, All, length, if◌then◌else◌,
}
use tp.Text.{Text, text_eq, codes}
use tp.World.{Platform, World, M, pure, ◌>>=◌}
use tp.World.Reads.{Reads, Reads-pure, Reads-crash, Reads-if, Reads-option, Reads-bind}
use tp.Data.Keys.Credentials.{IsCredential}
use tp.Dispatcher.Listing.{starts_with}
use tp.Dispatcher.Searching
use tp.Dispatcher.Frames.Searches.{Keeps-search_by_mode}
use tp.Rest.Connection.{Connection, at, get_parameter, split}
use tp.Rest.Node.{Node, uri_item, check_authorization}
use tp.Rest.Listing.{info_node, info_trash_node}
use tp.Rest.Searching.{
  search_filename_node, search_extension_node, search_tag_node, search_owner_node,
}
use tp.Rest.Users.{profile_node, update_photo_node, update_userfullname_node, update_location_node}
use tp.Rest.Trash.{
  delete_trash_node, delete_file_trash_node, restore_trash_node, restore_file_trash_node,
}
use tp.Rest.Transfers.{receive_file_node, send_file_node, send_dir_node, delete_file_node}
use tp.Rest.Directories.{create_dir_node, delete_dir_node, modify_name_dir_node}
use tp.Rest.Tags.{list_tags_node, list_tags_user_node, update_tags_node}
use tp.Rest.Sharing.{
  search_users_node, list_owners_node, list_collaborators_node, update_collaborators_node,
}
use tp.Rest.Elements.{list_info_elem_node}
use tp.Rest.Frames.{KeepsNode, KeepsNode-get, KeepsNode-post, KeepsNode-delete, KeepsNode-put}
use tp.Rest.Frames.Queries
use tp.Rest.Frames.Changes
use tp.Rest.Routes.{
  Route, serve, ignore, not_processed, first_route, and_parameter, and_no_parameter, uri_starts,
}

module _ ⦃P : Platform⦄ where
  pub record GuardedNode (node : Node) : Type 0 where
    -- The part of the URL that is the user.
    pub part : ℕ
    pub checked : node.auth ≡ check_authorization (uri_item part)
    pub quiet : (k : Text) → IsCredential k → KeepsNode k node

  abbrev pub Guarded : Route → Type 0
  Guarded (serve node) = GuardedNode node
  Guarded ignore = Unit
  Guarded not_processed = Unit

  -- A branch is guarded if its route is guarded wherever its condition holds.
  abbrev pub Branch : M Bool × M Route → Type 0
  Branch (condition, route) = Reads (λ (b : Bool). b ≡ true → Reads Guarded route) condition

  pub Reads-at : (xs : List Text) (i : ℕ) → Reads (λ _. Unit) (at xs i)
  unfolding at
  Reads-at [] i = Reads-crash _ _
  Reads-at (x ∷ xs) zero = Reads-pure _ x tt
  Reads-at (x ∷ xs) (suc i) = Reads-at xs i

  pub Reads-uri_item : (i : ℕ) (conn : Connection) → Reads (λ _. Unit) (uri_item i conn)
  unfolding uri_item
  Reads-uri_item i conn = Reads-at (split conn.uri b'/') i

  pub Reads-get_parameter :
      (key : Text) (conn : Connection) → Reads (λ _. Unit) (get_parameter key conn)
  unfolding get_parameter
  Reads-get_parameter key conn = Reads-option _ conn.query_string _ _ (Reads-pure _ [] tt) λ query.
      Reads-bind (λ _. Unit) _ _ _ (Reads-at (split query b'=') 0)
        λ k _.
          Reads-if _ (text_eq k key) _ _ (λ _. Reads-at (split query b'=') 1)
            (λ _. Reads-pure _ [] tt)

  pub record AllGuarded (bs : List (M Bool × M Route)) : Type 0 where
    pub reads : Reads Guarded (first_route bs)

  infixr 5 ◌▸◌
  -- The branches one by one.
  pub ◌▸◌ :
      {b : M Bool × M Route} {bs : List (M Bool × M Route)}
      → Branch b
      → AllGuarded bs
      → AllGuarded (b ∷ bs)
  unfolding first_route
  ◌▸◌ {b = (condition, route)} h rest = record {
    reads =
        Reads-bind (λ (c : Bool). c ≡ true → Reads Guarded route) Guarded condition _ h
          λ c rc. Reads-if Guarded c _ _ rc (λ _. rest.reads);
  }

  pub no_branch : AllGuarded []
  unfolding first_route
  no_branch = record { reads = Reads-pure Guarded not_processed tt }

  pub Reads-first_route :
      (bs : List (M Bool × M Route)) → AllGuarded bs → Reads Guarded (first_route bs)
  Reads-first_route bs h = h.reads

  -- A branch to a guarded node, behind any condition.
  pub to_node : (b : Bool) (node : Node) → GuardedNode node → Branch (pure b, pure (serve node))
  to_node b node g = Reads-pure _ b λ _. Reads-pure Guarded (serve node) g

  pub to_uri_node :
      (start : String) (conn : Connection) (node : Node)
      → GuardedNode node
      → Branch (uri_starts start conn, pure (serve node))
  unfolding uri_starts
  to_uri_node start conn node g = to_node _ node g

  pub to_node_by :
      (b : Bool) (key : String) (conn : Connection) (node : Node)
      → GuardedNode node
      → Branch (and_parameter b key conn, pure (serve node))
  unfolding and_parameter
  to_node_by b key conn node g =
      Reads-if _ b _ _
        (λ _.
          Reads-bind (λ _. Unit) _ _ _ (Reads-get_parameter (codes key) conn)
            λ value _. to_node _ node g)
        (λ _. to_node _ node g)

  pub to_node_without :
      (b : Bool) (key : String) (conn : Connection) (node : Node)
      → GuardedNode node
      → Branch (and_no_parameter b key conn, pure (serve node))
  unfolding and_no_parameter
  to_node_without b key conn node g =
      Reads-if _ b _ _
        (λ _.
          Reads-bind (λ _. Unit) _ _ _ (Reads-get_parameter (codes key) conn)
            λ value _. to_node _ node g)
        (λ _. to_node _ node g)
