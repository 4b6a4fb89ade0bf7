-- ===== src/Dispatcher/Sessions.antt =====
-- Sessions: what `log_in` asks and leaves behind, and what `check_token` accepts.
use tp.Common.{
  ℕ, ◌≡◌, refl, sym, ap, ◌∙◌, Bool, true, false, not, ◌+◌, ◌-◌, ◌%◌, Bool-cases, inl, inr, some,
  if◌then◌else◌, arith,
}
use tp.Text.{Text, text_eq, text_eq_iff, text_eq_refl}
use tp.World.{
  Platform, Reply, found, not_found, get_error, gets, Content, put_content, World, done, failed,
  pure, fail_with, fail_if, ◌>>=◌,
}
use tp.World.Inversion.{binding, guarding, converting, pure-done}
use tp.Db
use tp.Db.Laws.{stored}
use tp.Data.Constants.{suffix_password, suffix_token, status_wrong_token}
use tp.Data.Keys.{generate_user_key, email_index_key}
use tp.Data.Access
use tp.Data.Access.Reading.{Reliable, dbh_get-stored, reading, get_stored}
use tp.Data.Access.Tickets.{put-done}
use tp.Data.Users
use tp.Data.Stored.Readers.{get_user_info-UserStored}
use tp.Text.Decimal.{stoul, to_string, word}
use tp.Dispatcher.Records.{stoul_decimal}
use tp.Dispatcher.Accounts

some_eq : (a b : Text) → some a ≡ some b → a ≡ b
some_eq a b h = ground arith

module _ ⦃P : Platform⦄ where
  -- Where reads do not fail and the user has a token, `check_token` is the comparison with the token that is stored: it succeeds and changes nothing,
  -- or fails with WRONG_TOKEN.
  pub check_token_exact :
      (id token saved : Text) (w : World)
      → Reliable w
      → stored w (generate_user_key id suffix_token) ≡ some saved
      → Accounts.check_token id token w ≡ (
          if text_eq token saved
          then (done tt, w)
          else (failed, record w { status = status_wrong_token }))
  unfolding Accounts.check_token Users.get_user_token Users.get_user ◌>>=◌
  check_token_exact id token saved w r s = elim (Bool-cases (text_eq token saved)) [
    | inl e ↦ rw (dbh_get-stored _ _ w r s, e)
    | inr e ↦ rw (dbh_get-stored _ _ w r s, e)
  ]

  pub record LoggedIn (email password token id : Text) (w w' : World) : Type 0 where
    pub account : stored w (email_index_key email) ≡ some id
    pub proved : stored w (generate_user_key id suffix_password) ≡ some password
    pub opened : stored w' ≡ put_content (generate_user_key id suffix_token) token (stored w)

  read_at :
      (k v : Text) (r : Reply) (w : World) {w' : World}
      → Db.get k w ≡ r
      → Access.answer_read r w ≡ (done v, w')
      → (w' ≡ w) × (stored w k ≡ some v)
  unfolding Access.answer_read pure fail_with
  read_at k v (found u) w e h = (ground arith, get_stored k v w (e ∙ ground arith))
  read_at k v not_found w e h = cc
  read_at k v get_error w e h = cc

  dbh_get-done :
      (k v : Text) (w : World) {w' : World}
      → Access.dbh_get k w ≡ (done v, w')
      → (w' ≡ w) × (stored w k ≡ some v)
  unfolding Access.dbh_get
  dbh_get-done k v w h = read_at k v (Db.get k w) w refl h

  get_user_password-done :
      (email password : Text) (w : World) {w' : World}
      → Users.get_user_password email w ≡ (done password, w')
      → (w' ≡ w)
        × ((id : Text) × (stored w (email_index_key email) ≡ some id)
            × (stored w (generate_user_key id suffix_password) ≡ some password))
  unfolding Users.get_user_password Users.get_user Access.get_email_user_id_index
  get_user_password-done email password w h = reading _ _ w h λ id indexed rest.
      let (same, held) = dbh_get-done _ password w rest in (same, (id, indexed, held))

  written_or_error :
      (ok : Bool) (s : ℕ) (w1 : World) {w2 : World}
      → fail_if (not ok) s w1 ≡ (done tt, w2)
      → (ok ≡ true) × (w2 ≡ w1)
  unfolding pure fail_with
  written_or_error true s w1 h = (refl, ground arith)
  written_or_error false s w1 h = cc

  dbh_put-done :
      (k v : Text) (w : World) {w' : World}
      → Access.dbh_put k v w ≡ (done tt, w')
      → stored w' ≡ put_content k v (stored w)
  unfolding Access.dbh_put
  dbh_put-done k v w {w' = w'} h = binding (Db.put k v) _ w h λ ok w1 put rest.
      let (ok_true, same) = written_or_error ok _ w1 rest in
      ap stored same ∙ put-done k v w (put ∙ ap (λ b. (done b, w1)) ok_true)

  add_user_token-done :
      (email token id : Text) (w : World) {w' : World}
      → Users.add_user_token email token w ≡ (done id, w')
      → (stored w (email_index_key email) ≡ some id)
        × (stored w' ≡ put_content (generate_user_key id suffix_token) token (stored w))
  unfolding Users.add_user_token Access.get_email_user_id_index
  add_user_token-done email token id w {w' = w'} h = reading _ _ w h λ found_id indexed rest.
      binding (Access.dbh_put (generate_user_key found_id suffix_token) token) _ w rest
        λ _ w1 put last.
          let (same, end) = pure-done found_id w1 last in
          (
            indexed ∙ ap some same,
            ap stored end
                ∙ dbh_put-done _ token w put
                ∙ ap (λ (i : Text). put_content (generate_user_key i suffix_token) token (stored w))
                    same,
          )

  gets_same :
      {A : Type 0} (f : World → A) (w : World) {a : A} {w' : World}
      → gets f w ≡ (done a, w')
      → w' ≡ w
  unfolding gets
  gets_same f w h = ground arith

  logged :
      (email password token id owner user saved : Text) (w w1 w2 w' : World)
      → w1 ≡ w
      → stored w (email_index_key email) ≡ some owner
      → stored w (generate_user_key owner suffix_password) ≡ some saved
      → not (text_eq password saved) ≡ false
      → stored w1 (email_index_key email) ≡ some user
      → stored w2 ≡ put_content (generate_user_key user suffix_token) token (stored w1)
      → user ≡ id
      → w' ≡ w2
      → LoggedIn email password token id w w'
  logged email password token id owner user saved w w1 w2 w' same indexed held equal account opened
        who end =
      let account' : stored w (email_index_key email) ≡ some user = rw (← same) account in
      let mine : owner ≡ id = some_eq owner user (sym indexed ∙ account') ∙ who in
      let given : password ≡ saved = (text_eq_iff password saved).0 (ground arith) in
      record {
        account = account' ∙ ap some who;
        proved =
            ap (λ (i : Text). stored w (generate_user_key i suffix_password)) (sym mine)
            ∙ held
            ∙ ap some (sym given);
        opened =
            ap stored end
            ∙ opened
            ∙ ap (λ (v : World). put_content (generate_user_key user suffix_token) token (stored v))
                same
            ∙ ap (λ (i : Text). put_content (generate_user_key i suffix_token) token (stored w))
                who;
      }

  -- The rest of `log_in` reads only.
  log_in_end :
      (found_id id left : Text) (w : World) {w' : World}
      → (Users.get_user_info found_id >>= λ info. gets (λ v. v.max_user_quota) >>= λ quota.
            stoul_decimal info.user_quota_used >>= λ used.
            pure {A = Text × Text} (found_id, to_string ((quota + word - used) % word)))
          w
        ≡ (done (id, left), w')
      → (found_id ≡ id) × (w' ≡ w)
  unfolding stoul_decimal
  log_in_end found_id id left w h = binding (Users.get_user_info found_id) _ w h λ info w1 e h1.
      binding (gets (λ v. v.max_user_quota)) _ w1 h1 λ quota w2 g h2.
        converting (stoul info.user_quota_used) _ w2 h2 λ used read last.
          let (same, end) =
            pure-done {A = Text × Text} (found_id, to_string ((quota + word - used) % word)) w2
              last in
          let (kept, s) = get_user_info-UserStored found_id info w e in
          (ap (λ (p : Text × Text). p.0) same, end ∙ gets_same (λ v. v.max_user_quota) w1 g ∙ kept)

  -- Who logs in has given the password that is stored for the account of the email, and the new
  -- token is stored for that account: nothing else in the database has changed.
  pub log_in-LoggedIn :
      (email password token id left : Text) (w w' : World)
      → Accounts.log_in email password token w ≡ (done (id, left), w')
      → LoggedIn email password token id w w'
  unfolding Accounts.log_in
  log_in-LoggedIn email password token id left w w' h =
      binding (Users.get_user_password email) _ w h λ saved w1 read h1.
        let (same, (owner, indexed, held)) = get_user_password-done email saved w read in
        guarding (not (text_eq password saved)) _ _ w1 h1 λ equal h2.
          binding (Users.add_user_token email token) _ w1 h2 λ user w2 put h3.
            let (account, opened) = add_user_token-done email token user w1 put in
            let (who, end) = log_in_end user id left w2 h3 in
            logged email password token id owner user saved w w1 w2 w' same indexed held equal
              account opened who end

  -- The token of a log in is accepted by `check_token` in the state that the log in leaves, if reads
  -- do not fail in it.
  pub log_in_opens_session :
      (email password token id left : Text) (w w' : World)
      → Accounts.log_in email password token w ≡ (done (id, left), w')
      → Reliable w'
      → Accounts.check_token id token w' ≡ (done tt, w')
  log_in_opens_session email password token id left w w' h r =
      let key = generate_user_key id suffix_token in
      let held : stored w' key ≡ some token =
        ap (λ (c : Content). c key) (log_in-LoggedIn email password token id left w w' h).opened
        ∙ rw (text_eq_refl key) in
      check_token_exact id token token w' r held ∙ rw (text_eq_refl token)
