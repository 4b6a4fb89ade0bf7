-- ===== src/Rest/Node.antt =====
-- Node, server/src/rest/node.cc: a request is served if the user that it names has the token that it
-- carries.
use tp.Common.{ℕ, Bool, true, false, none, some, List, ◌++◌, length, ◌==◌, if◌then◌else◌}
use tp.Text.{Text, text_eq, codes}
use tp.World.{Platform, M, pure, attempt, ◌>>=◌}
use tp.Dispatcher.Accounts
use tp.Rest.Connection.{
  Connection, Sent, reply, status_code_unauthorized, status_code_method_not_allowed,
  get_authorization, split, at, c_str,
}

abbrev pub Handler : ⦃P : Platform⦄ → Type 0
Handler = Connection → M (List Sent)

-- A call on `getConnection()`, which returns a copy: what the call changes in it is lost.
unfoldable pub on_copy : {A : Type 0} → (Connection → A × Connection) → Connection → A × Connection
on_copy call conn = ((call conn).0, conn)

module _ ⦃P : Platform⦄ where
  -- A class of nodes, by its overrides.
  pub record Node : Type 0 where
    pub get_user_id : Connection → M Text
    pub auth : Connection → M Bool
    pub execute_get : Handler
    pub execute_post : Handler
    pub execute_delete : Handler
    pub execute_put : Handler
    pub default_response : Text

  -- `split(getUri(),'/')[i]`, which the nodes take the user from.
  unfoldable pub uri_item : ℕ → Connection → M Text
  uri_item i conn = at (split conn.uri b'/') i

  -- `Node::auth`. The user is logged in both cases.
  unfoldable pub check_authorization : (Connection → M Text) → Connection → M Bool
  check_authorization get_user_id conn = do
    user_id ← get_user_id conn
    (if length (get_authorization conn) == 0 then pure false else (do
      answer ← attempt (Accounts.check_token user_id (get_authorization conn))
      pure (elim answer [ none ↦ false | some _ ↦ true ])))

  unfoldable pub method_not_allowed : Handler
  method_not_allowed conn = pure (
      reply status_code_method_not_allowed (
        codes "{ \"message\":\"Method: '"
        ++ c_str conn.request_method
        ++ codes "' in '"
        ++ c_str conn.uri
        ++ codes "' not allowed\"}"))

  -- `handlerError` is the default response at every status.
  unfoldable pub request_forbidden : Node → List Sent
  request_forbidden node = reply status_code_unauthorized node.default_response

  unfoldable pub execute_method : Node → Handler
  execute_method node conn =
      if text_eq conn.request_method (codes "GET")
      then node.execute_get conn
      else (if text_eq conn.request_method (codes "POST")
          then node.execute_post conn
          else (if text_eq conn.request_method (codes "DELETE")
              then node.execute_delete conn
              else (if text_eq conn.request_method (codes "PUT")
                  then node.execute_put conn
                  else method_not_allowed conn)))

  unfoldable pub execute : Node → Handler
  execute node conn = do
    authorized ← node.auth conn
    (if authorized then execute_method node conn else pure (request_forbidden node))

  -- A node that overrides nothing but its user and its default response.
  abbrev pub node_at : ℕ → Text → Node
  node_at i response = record {
    get_user_id = uri_item i;
    auth = check_authorization (uri_item i);
    execute_get = method_not_allowed;
    execute_post = method_not_allowed;
    execute_delete = method_not_allowed;
    execute_put = method_not_allowed;
    default_response = response;
  }

  -- `if( !m ){ … failure … }else{ … next … }`
  unfoldable pub or_reply : {A : Type 0} → List Sent → M A → (A → M (List Sent)) → M (List Sent)
  or_reply failure m next = do
    answer ← attempt m
    elim answer [ none ↦ pure failure | some a ↦ next a ]
