-- ===== src/Rest/Sessions.antt =====
-- Sessions over HTTP: TokenNode::executePost of server/src/rest/token_node.cc opens one, and
-- Node::execute of server/src/rest/node.cc serves the requests in it.
use mathlib.Core.Path.{subst}
use tp.Common.{
  ℕ, ◌≡◌, refl, sym, ap, ◌∙◌, true, false, not, ◌==◌, Option, none, some, List, [], ◌∷◌, ◌++◌,
  length, arith,
}
use tp.Text.{Text, text_eq_refl, codes}
use tp.World.{
  Platform, World, M, Outcome, done, failed, crashed, endless_loop, pure, crash, attempt, ◌>>=◌,
}
use tp.World.Reads.{Reads, Reads-pure, Reads-crash, Reads-if, Reads-option}
use tp.World.Inversion.{binding, pure-done}
use tp.Db.Laws.{stored}
use tp.Data.Constants.{suffix_token}
use tp.Data.Keys.{generate_user_key}
use tp.Data.Access.Reading.{Reliable}
use tp.Dispatcher.Accounts
use tp.Dispatcher.Sessions.{LoggedIn, check_token_exact, log_in-LoggedIn}
use tp.Util.Md5.Rounds.{md5_str}
use tp.Util.Md5.Digest.{md5_str_returns}
use tp.Rest.Connection.{
  Connection, Sent, status, reply, get_authorization, get_body_field, as_string, status_code_ok,
  status_code_no_content,
}
use tp.Rest.Node.{Node, or_reply, uri_item, check_authorization, execute, execute_method}
use tp.Rest.Users.{token_post, create_token}
use tp.Rest.Guarded.{GuardedNode, Reads-uri_item}

module _ ⦃P : Platform⦄ where
  read_first :
      {A B : Type 0} {S : A → Type 0} (m : M A) (f : A → M B) (w : World) (a : A)
      → Reads S m
      → (m w).0 ≡ done a
      → (m >>= f) w ≡ f a w
  unfolding ◌>>=◌
  read_first m f w a rm e = rw (e, rm.still w) refl

  accepted :
      (i : ℕ) (conn : Connection) (w : World) (user : Text)
      → (uri_item i conn w).0 ≡ done user
      → (length (get_authorization conn) == 0) ≡ false
      → Accounts.check_token user (get_authorization conn) w ≡ (done tt, w)
      → check_authorization (uri_item i) conn w ≡ (done true, w)
  unfolding check_authorization attempt pure ◌>>=◌
  accepted i conn w user named carried checked =
      read_first (uri_item i conn) _ w user (Reads-uri_item i conn) named
      ∙ rw (carried, checked) refl

  -- The test of a node that checks the token of a part of the URL is passed.
  pub execute_accepted :
      (node : Node) (conn : Connection) (w : World) (part : ℕ) (user : Text)
      → node.auth ≡ check_authorization (uri_item part)
      → Reliable w
      → (uri_item part conn w).0 ≡ done user
      → (length (get_authorization conn) == 0) ≡ false
      → stored w (generate_user_key user suffix_token) ≡ some (get_authorization conn)
      → execute node conn w ≡ execute_method node conn w
  unfolding execute ◌>>=◌
  execute_accepted node conn w part user auth r named carried held =
      let checked : Accounts.check_token user (get_authorization conn) w ≡ (done tt, w) =
        check_token_exact user (get_authorization conn) _ w r held
        ∙ rw (text_eq_refl (get_authorization conn)) in
      rw (auth, accepted part conn w user named carried checked) refl

  -- A guarded node runs the method of a request that carries the token that is stored for the user
  -- whom the URL names, in the state as it is, where reads of the database do not fail.
  pub execute_authorized :
      (node : Node) (conn : Connection) (w : World) (g : GuardedNode node) (user : Text)
      → Reliable w
      → (uri_item g.part conn w).0 ≡ done user
      → (length (get_authorization conn) == 0) ≡ false
      → stored w (generate_user_key user suffix_token) ≡ some (get_authorization conn)
      → execute node conn w ≡ execute_method node conn w
  execute_authorized node conn w g user r named carried held =
      execute_accepted node conn w g.part user g.checked r named carried held

  -- A request in the session that a log in opens is run, where reads of the database do not fail in
  -- the state that the log in leaves.
  pub log_in_serves :
      (email password token id left : Text) (w w' : World)
      → Accounts.log_in email password token w ≡ (done (id, left), w')
      → Reliable w'
      → (length token == 0) ≡ false
      → (node : Node) (conn : Connection) (g : GuardedNode node) → get_authorization conn ≡ token
      → (uri_item g.part conn w').0 ≡ done id
      → execute node conn w' ≡ execute_method node conn w'
  log_in_serves email password token id left w w' logged r carried node conn g header named =
      execute_authorized node conn w' g id r named (rw header carried) (
        ap (λ (c : Text → Option Text). c (generate_user_key id suffix_token))
          (log_in-LoggedIn email password token id left w w' logged).opened
        ∙ rw (text_eq_refl (generate_user_key id suffix_token), header) refl)

  Reads-as_string : (v : Option Text) → Reads (λ _. Unit) (as_string v)
  unfolding as_string
  Reads-as_string none = Reads-crash _ _
  Reads-as_string (some v) = Reads-pure _ v tt

  Reads-get_body_field :
      (field : Text) (conn : Connection) → Reads (λ _. Unit) (get_body_field field conn)
  unfolding get_body_field
  Reads-get_body_field field conn = Reads-option _ conn.body _ _ (Reads-pure _ [] tt) λ root.
      Reads-if _ (not (root.size == 0)) _ _ (λ _. Reads-as_string (root.field field))
        (λ _. Reads-pure _ [] tt)

  -- What a request to TokenNode that is answered with the status 200 has done.
  pub record TokenOpened (conn : Connection) (w w' : World) : Type 0 where
    pub email : Text
    pub password : Text
    pub token : Text
    pub id : Text
    pub email_given : (get_body_field (codes "email") conn w).0 ≡ done email
    pub password_given : (get_body_field (codes "password") conn w).0 ≡ done password
    pub made :
        md5_str (conn.first_random ++ email ++ conn.seconds ++ conn.second_random) ≡ some token
    pub session : LoggedIn email password token id w w'

  created_at :
      (o : Option Text) (token : Text) (w w1 : World)
      → (elim o as (λ _. M Text) [ some out ↦ pure out | none ↦ crash endless_loop ]) w
        ≡ (done token, w1)
      → (o ≡ some token) × (w1 ≡ w)
  unfolding pure crash
  created_at none token w w1 h = cc
  created_at (some out) token w w1 h = (ground arith, ground arith)

  create_token-done :
      (conn : Connection) (email token : Text) (w w1 : World)
      → create_token conn email w ≡ (done token, w1)
      → (md5_str (conn.first_random ++ email ++ conn.seconds ++ conn.second_random) ≡ some token)
        × (w1 ≡ w)
  unfolding create_token
  create_token-done conn email token w w1 h = created_at _ token w w1 h

  -- `CreateToken` returns a token of 32 characters for every request and e-mail address, and changes
  -- nothing.
  pub create_token_returns :
      (conn : Connection) (email : Text) (w : World)
      → (token : Text) × (create_token conn email w ≡ (done token, w)) × (length token ≡ 32)
  unfolding create_token pure
  create_token_returns conn email w =
      let (token, made, size) =
        md5_str_returns (conn.first_random ++ email ++ conn.seconds ++ conn.second_random) in
      (token, rw (made, create_token) refl, size)

  -- A read in a chain that returns.
  reading_first {ℓ} :
      {A B : Type 0} {C : Type ℓ} {S : A → Type 0} (m : M A) (f : A → M B) (w : World) {b : B}
      {w' : World}
      → Reads S m
      → (m >>= f) w ≡ (done b, w')
      → ((a : A) → (m w).0 ≡ done a → f a w ≡ (done b, w') → C)
      → C
  reading_first m f w {b = b} {w' = w'} rm h next = binding m f w h λ a w1 e rest.
      let same : w1 ≡ w = sym (ap (λ (o : Outcome _ × World). o.1) e) ∙ rm.still w in
      next a (ap (λ (o : Outcome _ × World). o.0) e)
        (subst (λ (v : World). f a v ≡ (done b, w')) same rest)

  -- A reply that is not the one to a failure is that of a call that has succeeded.
  or_reply_at :
      {A : Type 0} (failure sent : List Sent) (o : Outcome A) (next : A → M (List Sent))
      (w w' : World)
      → ¬ (sent ≡ failure)
      → or_reply failure (λ _. (o, w)) next w ≡ (done sent, w')
      → (a : A) × (o ≡ done a) × (next a w ≡ (done sent, w'))
  unfolding or_reply attempt pure ◌>>=◌
  or_reply_at failure sent (done a) next w w' other h = (a, refl, h)
  or_reply_at failure sent failed next w w' other h = absurd (other (ground arith))
  or_reply_at failure sent (crashed c) next w w' other h = cc

  or_reply-done :
      {A : Type 0} (failure sent : List Sent) (m : M A) (next : A → M (List Sent)) (w w' : World)
      → ¬ (sent ≡ failure)
      → or_reply failure m next w ≡ (done sent, w')
      → (a : A) × ((m w).0 ≡ done a) × (next a (m w).1 ≡ (done sent, w'))
  unfolding or_reply attempt pure ◌>>=◌
  or_reply-done failure sent m next w w' other h =
      or_reply_at failure sent (m w).0 next (m w).1 w' other h

  abbrev code_of : List Sent → ℕ
  code_of [] = 0
  code_of (status code ∷ sent) = code
  code_of (_ ∷ sent) = 0

  codes_differ : (a b : Text) → ¬ (reply status_code_ok a ≡ reply status_code_no_content b)
  codes_differ a b h = omega (arith, ap code_of h)

  ran :
      {A : Type 0} (m : M A) (w w1 w' : World) (a : A)
      → w1 ≡ w
      → (m w1).0 ≡ done a
      → w' ≡ (m w1).1
      → m w ≡ (done a, w')
  ran m w w1 w' a same e end =
      ap m (sym same)
      ∙ ap (λ (o : Outcome _). (o, (m w1).1)) e
      ∙ ap (λ (v : World). (done a, v)) (sym end)

  -- Who is given a session by TokenNode has sent the e-mail address of an account and its password;
  -- the token that is stored for the account is the digest that `CreateToken` makes, and nothing else
  -- in the database has changed.
  pub token_post-TokenOpened :
      (conn : Connection) (msg : Text) (w w' : World)
      → token_post conn w ≡ (done (reply status_code_ok msg), w')
      → TokenOpened conn w w'
  unfolding token_post
  token_post-TokenOpened conn msg w w' h =
      reading_first _ _ w (Reads-get_body_field (codes "email") conn) h λ email given h1.
        reading_first _ _ w (Reads-get_body_field (codes "password") conn) h1 λ password secret h2.
          binding (create_token conn email) _ w h2 λ token w1 e h3.
            let (made, same) = create_token-done conn email token w w1 e in
            let ((id, left), logged, rest) =
              or_reply-done _ _ (Accounts.log_in email password token) _ w1 w' (codes_differ _ _)
                h3 in
            let (_, end) = pure-done _ _ rest in
            record {
              email = email;
              password = password;
              token = token;
              id = id;
              email_given = given;
              password_given = secret;
              made = made;
              session =
                  log_in-LoggedIn email password token id left w w'
                    (ran (Accounts.log_in email password token) w w1 w' (id, left) same logged end);
            }
