-- ===== src/Rest/Frames.antt =====
-- The nodes change neither a password nor a token: one rule for each way to build a handler.
pub mod Queries
pub mod Changes
use tp.Common.{ℕ, zero, suc, Bool, true, false, Option, none, some, List, [], ◌∷◌}
use tp.Text.{Text}
use tp.World.{Platform, M, pure, crash, json_error, attempt, ◌>>=◌}
use tp.Db.Keeps.{Keeps, Keeps-pure, Keeps-crash, Keeps-attempt, Keeps-bind, Keeps-if, keeps_rules}
use tp.Data.Keys.Credentials.{IsCredential}
use tp.Dispatcher.Frames.Views.{Keeps-check_token}
use tp.Rest.Connection.{
  Connection, JsonValue, Sent, at, as_string, get_body_field, get_body_json, get_parameter, split,
}
use tp.Rest.Node.{
  Handler, Node, uri_item, check_authorization, method_not_allowed, execute, execute_method,
  or_reply, node_at,
}

module _ ⦃P : Platform⦄ {k : Text} where
  pub Keeps-at : (xs : List Text) (i : ℕ) → Keeps k (at xs i)
  unfolding at
  Keeps-at [] i = Keeps-crash _
  Keeps-at (x ∷ xs) zero = Keeps-pure x
  Keeps-at (x ∷ xs) (suc i) = Keeps-at xs i

  pub Keeps-as_string : (v : Option Text) → Keeps k (as_string v)
  unfolding as_string
  Keeps-as_string none = Keeps-crash _
  Keeps-as_string (some v) = Keeps-pure v

  -- A match on an optional value.
  pub Keeps-option :
      {A B : Type 0} (o : Option A) (m : M B) (f : A → M B)
      → Keeps k m
      → ((a : A) → Keeps k (f a))
      → Keeps k (elim o as (λ _. M B) [ none ↦ m | some a ↦ f a ])
  Keeps-option none m f km kf = km
  Keeps-option (some a) m f km kf = kf a

  pub Keeps-get_body_field :
      (field : Text) (conn : Connection) → Keeps k (get_body_field field conn)
  unfolding get_body_field
  Keeps-get_body_field field conn =
      Keeps-option conn.body _ _ (Keeps-pure [])
        λ root. Keeps-if _ _ _ (Keeps-as_string _) (Keeps-pure [])

  pub Keeps-get_body_json : (conn : Connection) → Keeps k (get_body_json conn)
  unfolding get_body_json
  Keeps-get_body_json conn =
      Keeps-option conn.body _ _
        (Keeps-option conn.null_body _ _ (Keeps-crash json_error) Keeps-pure) Keeps-pure

  pub Keeps-get_parameter : (key : Text) (conn : Connection) → Keeps k (get_parameter key conn)
  unfolding get_parameter
  Keeps-get_parameter key conn =
      Keeps-option conn.query_string _ _ (Keeps-pure []) λ query. search (keeps_rules, Keeps-at)

  pub Keeps-uri_item : (i : ℕ) (conn : Connection) → Keeps k (uri_item i conn)
  unfolding uri_item
  Keeps-uri_item i conn = Keeps-at _ _

  pub Keeps-or_reply :
      {A : Type 0} (failure : List Sent) (m : M A) (next : A → M (List Sent))
      → Keeps k m
      → ((a : A) → Keeps k (next a))
      → Keeps k (or_reply failure m next)
  unfolding or_reply
  Keeps-or_reply failure m next km kn =
      Keeps-bind _ _ (Keeps-attempt m km) (elim [ none ↦ Keeps-pure failure | some a ↦ kn a ])

  pub Keeps-check_authorization :
      (c : IsCredential k) (i : ℕ) (conn : Connection)
      → Keeps k (check_authorization (uri_item i) conn)
  unfolding check_authorization
  Keeps-check_authorization c i conn = search (keeps_rules, Keeps-uri_item, Keeps-check_token c)

  pub Keeps-method_not_allowed : (conn : Connection) → Keeps k (method_not_allowed conn)
  unfolding method_not_allowed
  Keeps-method_not_allowed conn = Keeps-pure _

-- The rules for what the nodes are made of.
pub ruleset rest_rules = (
  keeps_rules, Keeps-as_string, Keeps-get_body_field, Keeps-get_body_json, Keeps-get_parameter,
  Keeps-uri_item, Keeps-or_reply, Keeps-method_not_allowed,
)

-- A node whose methods keep the value of a key.
pub record KeepsNode ⦃P : Platform⦄ (k : Text) (node : Node) : Type 0 where
  pub get_keeps : (conn : Connection) → Keeps k (node.execute_get conn)
  pub post_keeps : (conn : Connection) → Keeps k (node.execute_post conn)
  pub delete_keeps : (conn : Connection) → Keeps k (node.execute_delete conn)
  pub put_keeps : (conn : Connection) → Keeps k (node.execute_put conn)

module _ ⦃P : Platform⦄ {k : Text} where
  pub Keeps-execute :
      (node : Node) (conn : Connection)
      → KeepsNode k node
      → Keeps k (node.auth conn)
      → Keeps k (execute node conn)
  unfolding execute execute_method
  Keeps-execute node conn n ka = Keeps-bind _ _ ka λ authorized.
      Keeps-if _ _ _
        (Keeps-if _ _ _ (n.get_keeps conn) (
          Keeps-if _ _ _ (n.post_keeps conn) (
            Keeps-if _ _ _ (n.delete_keeps conn)
              (Keeps-if _ _ _ (n.put_keeps conn) (Keeps-method_not_allowed conn)))))
        (Keeps-pure _)

  -- A node that overrides one method.
  module _ (i : ℕ) (response : Text) (h : Handler)
      (kh : (conn : Connection) → Keeps k (h conn)) where
    pub KeepsNode-get : KeepsNode k (record (node_at i response) { execute_get = h })
    KeepsNode-get = record {
      get_keeps = kh;
      post_keeps = Keeps-method_not_allowed;
      delete_keeps = Keeps-method_not_allowed;
      put_keeps = Keeps-method_not_allowed;
    }

    pub KeepsNode-post : KeepsNode k (record (node_at i response) { execute_post = h })
    KeepsNode-post = record {
      get_keeps = Keeps-method_not_allowed;
      post_keeps = kh;
      delete_keeps = Keeps-method_not_allowed;
      put_keeps = Keeps-method_not_allowed;
    }

    pub KeepsNode-delete : KeepsNode k (record (node_at i response) { execute_delete = h })
    KeepsNode-delete = record {
      get_keeps = Keeps-method_not_allowed;
      post_keeps = Keeps-method_not_allowed;
      delete_keeps = kh;
      put_keeps = Keeps-method_not_allowed;
    }

    pub KeepsNode-put : KeepsNode k (record (node_at i response) { execute_put = h })
    KeepsNode-put = record {
      get_keeps = Keeps-method_not_allowed;
      post_keeps = Keeps-method_not_allowed;
      delete_keeps = Keeps-method_not_allowed;
      put_keeps = kh;
    }
