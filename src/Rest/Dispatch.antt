-- ===== src/Rest/Dispatch.antt =====
-- Which node handlerCaller of server/src/web_server.cc runs for the requests on one file.
use tp.Common.{ℕ, not, ◌&&◌, arith, ◌≡◌, refl, Bool, true, false, [], ◌∷◌, ◌==◌, length}
use tp.Text.{Text, text_eq, codes}
use tp.World.{Platform, World, pure, ◌>>=◌}
use tp.Dispatcher.Listing.{starts_with}
use tp.Rest.Connection.{Connection, split, at}
use tp.Rest.Node.{Node, uri_item}
use tp.Rest.Json.{join}
use tp.Rest.Transfers.{delete_file_node, send_file_node}
use tp.Rest.Tags.{list_tags_node, update_tags_node}
use tp.Rest.Directories.{modify_name_dir_node}
use tp.Rest.Sharing.{list_collaborators_node}
use tp.Rest.Elements.{list_info_elem_node}
use tp.Rest.Forbidden.{
  FileEndpoint, remove, send, show_tags, set_tags, rename, show_collaborators, describe,
  endpoint_parts,
}
use tp.Rest.Urls.{Free, split-join}
use tp.Rest.Routes.{
  mg_request, serve, first_route, uri_starts, method_starts, and_parameter, is_at, users_branches,
  users_route, tags_branches, collaborators_branches, branches, answer_route, handler_caller,
}

abbrev pub endpoint_method : FileEndpoint → Text
endpoint_method remove = codes "DELETE"
endpoint_method set_tags = codes "PUT"
endpoint_method rename = codes "PUT"
endpoint_method _ = codes "GET"

abbrev pub endpoint_uri : FileEndpoint → Text → Text → Text
endpoint_uri e user file = join (b'/' ∷ []) (endpoint_parts e user file)

abbrev is_free : ℕ → Text → Bool
is_free d [] = true
is_free d (c ∷ s) = not (c == d) && is_free d s

is_free-Free : (d : ℕ) (s : Text) → is_free d s ≡ true → Free d s
is_free-Free d [] h = tt
is_free-Free d (c ∷ s) h = (ground arith, is_free-Free d s (ground arith))

-- A word of a URL.
word_Free : (s : Text) → is_free b'/' s ≡ true → Free b'/' s
word_Free s h = is_free-Free b'/' s h

pub endpoint_split :
    (e : FileEndpoint) (user file : Text)
    → Free b'/' user
    → Free b'/' file
    → (length file == 0) ≡ false
    → split (endpoint_uri e user file) b'/' ≡ endpoint_parts e user file
endpoint_split remove user file u f full =
    split-join b'/' [] _ tt
      (word_Free (codes "users") refl, (u, (word_Free (codes "file") refl, (f, tt)))) full
endpoint_split send user file u f full =
    split-join b'/' [] _ tt
      (word_Free (codes "users") refl, (u, (word_Free (codes "file") refl, (f, tt)))) full
endpoint_split show_tags user file u f full =
    split-join b'/' [] _ tt
      (
        word_Free (codes "filetags") refl,
        (word_Free (codes "users") refl, (u, (word_Free (codes "file") refl, (f, tt)))),
      )
      full
endpoint_split set_tags user file u f full =
    split-join b'/' [] _ tt
      (
        word_Free (codes "filetags") refl,
        (word_Free (codes "users") refl, (u, (word_Free (codes "file") refl, (f, tt)))),
      )
      full
endpoint_split rename user file u f full =
    split-join b'/' [] _ tt
      (
        word_Free (codes "filename") refl,
        (word_Free (codes "users") refl, (u, (word_Free (codes "file") refl, (f, tt)))),
      )
      full
endpoint_split show_collaborators user file u f full =
    split-join b'/' [] _ tt
      (
        word_Free (codes "fileInfo") refl,
        (
          word_Free (codes "user") refl,
          (u, (word_Free (codes "files") refl, (f, (word_Free (codes "collaborators") refl, tt)))),
        ),
      )
      refl
endpoint_split describe user file u f full =
    split-join b'/' [] _ tt
      (
        word_Free (codes "fileinfo") refl,
        (word_Free (codes "users") refl, (u, (word_Free (codes "file") refl, (f, tt)))),
      )
      full

module _ ⦃P : Platform⦄ where
  abbrev pub endpoint_node : FileEndpoint → Node
  endpoint_node remove = delete_file_node
  endpoint_node send = send_file_node
  endpoint_node show_tags = list_tags_node
  endpoint_node set_tags = update_tags_node
  endpoint_node rename = modify_name_dir_node
  endpoint_node show_collaborators = list_collaborators_node
  endpoint_node describe = list_info_elem_node

  routed :
      (e : FileEndpoint) (conn : Connection) (user file : Text)
      → conn.uri ≡ endpoint_uri e user file
      → conn.request_method ≡ endpoint_method e
      → split (endpoint_uri e user file) b'/' ≡ endpoint_parts e user file
      → first_route (branches conn) ≡ pure (serve (endpoint_node e))
  unfolding first_route branches uri_starts method_starts and_parameter is_at users_route
      users_branches tags_branches collaborators_branches uri_item at starts_with text_eq join pure
      ◌>>=◌
  routed remove conn user file uri method parts = rw (uri, method, parts) refl
  routed send conn user file uri method parts = rw (uri, method, parts) refl
  routed show_tags conn user file uri method parts = rw (uri, method, parts) refl
  routed set_tags conn user file uri method parts = rw (uri, method, parts) refl
  routed rename conn user file uri method parts = rw (uri, method, parts) refl
  routed show_collaborators conn user file uri method parts = rw (uri, method, parts) refl
  routed describe conn user file uri method parts = rw (uri, method, parts) refl

  -- A request on a file, with the URL and the method of what is asked, is run by the node for it:
  -- for a user and a file whose texts hold no slash, and where that of the file is not empty.
  pub endpoint_served :
      (e : FileEndpoint) (conn : Connection) (user file : Text) (w : World)
      → conn.uri ≡ endpoint_uri e user file
      → conn.request_method ≡ endpoint_method e
      → Free b'/' user
      → Free b'/' file
      → (length file == 0) ≡ false
      → handler_caller mg_request conn w ≡ answer_route (serve (endpoint_node e)) conn w
  unfolding handler_caller pure ◌>>=◌
  endpoint_served e conn user file w uri method u f full =
      rw (routed e conn user file uri method (endpoint_split e user file u f full)) refl
