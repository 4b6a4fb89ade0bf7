-- ===== src/Rest/Authorized.antt =====
-- Requests with and without a valid token, through server/src/web_server.cc, the test of
-- server/src/rest/node.cc and the nodes.
use mathlib.Core.Path.{subst}
use tp.Common.{
  ℕ, ◌≡◌, refl, sym, ap, ◌∙◌, Bool, false, ◌==◌, Option, none, some, List, [], length, ◌⊎◌, inl,
  inr, Bool-cases,
}
use tp.Text.{Text, text_eq, text_eq_iff}
use tp.World.{Platform, Reply, found, not_found, get_error, World, M, done, pure, fail_with, ◌>>=◌}
use tp.World.Silent.{Silent, Silent-chain, Silent-after, Silent-pure, Silent-attempt}
use tp.Db
use tp.Db.Laws.{stored}
use tp.Db.Keeps.{Keeps, Keeps-pure, Keeps-bind, Keeps-after}
use tp.Rest.Frames.{Keeps-execute, Keeps-check_authorization}
use tp.Data.Constants.{suffix_token, suffix_password}
use tp.Data.Keys.{generate_user_key}
use tp.Data.Keys.Credentials.{IsCredential, password-IsCredential, token-IsCredential}
use tp.Data.Access
use tp.Data.Access.Reading.{get_stored}
use tp.Data.Users
use tp.Dispatcher.Accounts
use tp.Rest.Connection.{Connection, Sent, reply, status_code_unauthorized, get_authorization}
use tp.Rest.Node.{Node, uri_item, check_authorization, execute, request_forbidden}
use tp.Rest.Guarded.{Guarded, GuardedNode, Reads-uri_item}
use tp.Rest.Guarded.Branches.{NeedsToken, Reads-branches}
use tp.Rest.Routes.{
  Event, mg_auth, mg_request, other_event, Answer, Route, serve, ignore, not_processed, first_route,
  branches, answer_route, handler_caller,
}

module _ ⦃P : Platform⦄ where
  -- The request carries the token that is stored for a user, who is one of the parts of its URL.
  pub record Authorized (conn : Connection) (w : World) : Type 0 where
    pub part : ℕ
    pub user : Text
    pub named : (uri_item part conn w).0 ≡ done user
    pub held : stored w (generate_user_key user suffix_token) ≡ some (get_authorization conn)
    pub carried : (length (get_authorization conn) == 0) ≡ false

  -- Nothing is sent, or the status 401 and the default response of a node.
  abbrev pub Refusal : Answer → Type 0
  Refusal a =
      (a.sent ≡ []) ⊎ ((response : Text) × (a.sent ≡ reply status_code_unauthorized response))

  module _ (id token : Text) (w : World) where
    compared :
        (saved : Text)
        → ¬ (stored w (generate_user_key id suffix_token) ≡ some token)
        → stored w (generate_user_key id suffix_token) ≡ some saved
        → text_eq token saved ≡ false
    compared saved h s = elim (Bool-cases (text_eq token saved)) [
      | inl e ↦ absurd (h (s ∙ ap some (sym ((text_eq_iff token saved).0 e))))
      | inr e ↦ e
    ]

    refused_at :
        (r : Reply)
        → Db.get (generate_user_key id suffix_token) w ≡ r
        → ¬ (stored w (generate_user_key id suffix_token) ≡ some token)
        → Silent (λ _. ⊥) w (Accounts.check_token id token w)
    unfolding Accounts.check_token Users.get_user_token Users.get_user Access.dbh_get
        Access.answer_read pure fail_with ◌>>=◌
    refused_at (found saved) e h =
        rw (e, compared saved h (get_stored _ saved w e)) (record { kept = refl; answer = tt })
    refused_at not_found e h = rw e (record { kept = refl; answer = tt })
    refused_at get_error e h = rw e (record { kept = refl; answer = tt })

    -- `check_token` fails for another token than the one that is stored.
    check_token-Silent :
        ¬ (stored w (generate_user_key id suffix_token) ≡ some token)
        → Silent (λ _. ⊥) w (Accounts.check_token id token w)
    check_token-Silent h = refused_at _ refl h

  pub check_authorization-Silent :
      (i : ℕ) (conn : Connection) (w : World)
      → ¬ Authorized conn w
      → Silent (λ (b : Bool). b ≡ false) w (check_authorization (uri_item i) conn w)
  unfolding check_authorization
  check_authorization-Silent i conn w h =
      Silent-after (λ _. Unit) _ (uri_item i conn) _ w (Reads-uri_item i conn)
        λ user named _. elim (Bool-cases (length (get_authorization conn) == 0)) [
          | inl e ↦ rw e (Silent-pure _ false w refl)
          | inr e ↦ rw e (
              Silent-chain (λ (a : Option Unit). a ≡ none) _ _ _ w
                (Silent-attempt (Accounts.check_token user (get_authorization conn)) w (
                  check_token-Silent user _ w λ held.
                    h (record { part = i; user = user; named = named; held = held; carried = e })))
                λ a w1 none_read. rw none_read (Silent-pure _ false w1 refl))
        ]

  -- A guarded node refuses a request without a valid token.
  execute-Silent :
      (node : Node) (conn : Connection) (w : World)
      → GuardedNode node
      → ¬ Authorized conn w
      → Silent (λ (sent : List Sent). sent ≡ request_forbidden node) w (execute node conn w)
  unfolding execute
  execute-Silent node conn w g h =
      Silent-chain (λ (b : Bool). b ≡ false) _ (node.auth conn) _ w
        (subst (λ (auth : Connection → M Bool). Silent (λ (b : Bool). b ≡ false) w (auth conn w))
          (sym g.checked) (check_authorization-Silent g.part conn w h))
        λ b w1 refused. rw refused (Silent-pure _ (request_forbidden node) w1 refl)

  answer_route-Silent :
      (route : Route) (conn : Connection) (w : World)
      → Guarded route
      → ¬ Authorized conn w
      → Silent Refusal w (answer_route route conn w)
  unfolding answer_route request_forbidden
  answer_route-Silent (serve node) conn w g h =
      Silent-chain _ Refusal (execute node conn) _ w (execute-Silent node conn w g h)
        λ sent w1 forbidden. Silent-pure Refusal _ w1 (inr (node.default_response, forbidden))
  answer_route-Silent ignore conn w g h = Silent-pure Refusal _ w (inl refl)
  answer_route-Silent not_processed conn w g h = Silent-pure Refusal _ w (inl refl)

  -- Without a valid token nothing but `status` changes, and what is answered is a refusal.
  pub handler_caller-Silent :
      (event : Event) (conn : Connection) (w : World)
      → NeedsToken conn
      → ¬ Authorized conn w
      → Silent Refusal w (handler_caller event conn w)
  unfolding handler_caller
  handler_caller-Silent mg_auth conn w n h = Silent-pure Refusal _ w (inl refl)
  handler_caller-Silent mg_request conn w n h =
      Silent-after Guarded Refusal (first_route (branches conn)) _ w (Reads-branches conn n)
        λ route _ g. answer_route-Silent route conn w g h
  handler_caller-Silent other_event conn w n h = Silent-pure Refusal _ w (inl refl)

  Keeps-answer_route :
      {k : Text} (c : IsCredential k) (route : Route) (conn : Connection)
      → Guarded route
      → Keeps k (answer_route route conn)
  unfolding answer_route
  Keeps-answer_route {k = k} c (serve node) conn g =
      Keeps-bind _ _
        (Keeps-execute node conn (g.quiet k c) (
          subst (λ (auth : Connection → M Bool). Keeps k (auth conn)) (sym g.checked)
            (Keeps-check_authorization c g.part conn)))
        λ sent. Keeps-pure _
  Keeps-answer_route c ignore conn g = Keeps-pure _
  Keeps-answer_route c not_processed conn g = Keeps-pure _

  Keeps-handler_caller :
      {k : Text} (c : IsCredential k) (event : Event) (conn : Connection)
      → NeedsToken conn
      → Keeps k (handler_caller event conn)
  unfolding handler_caller
  Keeps-handler_caller c mg_auth conn n = Keeps-pure _
  Keeps-handler_caller c mg_request conn n =
      Keeps-after Guarded (first_route (branches conn)) _ (Reads-branches conn n)
        λ route g. Keeps-answer_route c route conn g
  Keeps-handler_caller c other_event conn n = Keeps-pure _

  -- A request to another URL than /token and /signup... leaves every password and every token as they
  -- are, however it ends, where no command of the shell reaches the files of the database.
  pub handler_caller_keeps_credentials :
      (event : Event) (conn : Connection) (id : Text) (w : World)
      → NeedsToken conn
      → let w' = (handler_caller event conn w).1 in
        (stored w' (generate_user_key id suffix_password)
          ≡ stored w (generate_user_key id suffix_password))
        × (stored w' (generate_user_key id suffix_token)
            ≡ stored w (generate_user_key id suffix_token))
  handler_caller_keeps_credentials event conn id w n = (
    (Keeps-handler_caller (password-IsCredential id) event conn n).at w,
    (Keeps-handler_caller (token-IsCredential id) event conn n).at w,
  )
