-- ===== src/Rest/Legible.antt =====
-- Where handlerCaller of server/src/web_server.cc reads no part of a URL and of a query that is not
-- there, a route is found and the test of server/src/rest/node.cc has an answer.
pub mod Routed
use tp.Common.{
  ℕ, zero, suc, ◌≤◌, ◌<◌, ◌≡◌, refl, ◌∙◌, ap, Bool, true, false, not, ◌&&◌, ◌||◌, leb, Option, none,
  some, List, [], ◌∷◌, length, ◌==◌, All, String, arith, if◌then◌else◌,
}
use tp.Text.{Text, text_eq, codes}
use tp.World.{Platform, World, Reply, found, not_found, get_error, M, pure, fail_with, ◌>>=◌}
use tp.World.Returning.{
  Returning, NotCrashed, Returning-pure, Returning-if, Returning-bind, Returning-attempt,
}
use tp.Db
use tp.Data.Constants.{suffix_token, status_wrong_token}
use tp.Data.Keys.{generate_user_key}
use tp.Data.Access
use tp.Data.Users
use tp.Dispatcher.Accounts
use tp.Dispatcher.Listing.{starts_with}
use tp.Rest.Connection.{Connection, at, split, get_parameter, get_authorization}
use tp.Rest.Node.{uri_item, check_authorization}

-- The starts of the URLs whose user is the third part, and is the last that is read.
abbrev short_starts : List Text
short_starts = codes "/profile" ∷ codes "/photo" ∷ codes "/userfullname" ∷ codes "/user/" ∷ []

abbrev starts_with_any : List Text → Text → Bool
starts_with_any [] uri = false
starts_with_any (start ∷ starts) uri = starts_with start uri || starts_with_any starts uri

-- The number of the parts that are read of a URL before the token is checked.
abbrev pub parts_read : Text → ℕ
parts_read uri =
    if starts_with (codes "/info/users") uri
    then 5
    else (if starts_with_any short_starts uri then 3 else 4)

-- A query has a second part, if there is one.
abbrev pub query_legible : Option Text → Bool
query_legible none = true
query_legible (some query) = leb 2 (length (split query b'='))

-- No part is read that is not there.
abbrev pub legible : Connection → Bool
legible conn =
    leb (parts_read conn.uri) (length (split conn.uri b'/')) && query_legible conn.query_string

-- Texts that differ within the shorter one.
abbrev clash : Text → Text → Bool
clash [] t = false
clash (a ∷ s) [] = false
clash (a ∷ s) (b ∷ t) = not (a == b) || clash s t

abbrev clash_all : Text → List Text → Bool
clash_all s [] = true
clash_all s (t ∷ ts) = clash s t && clash_all s ts

clash-starts_with :
    (s t uri : Text) → clash s t ≡ true → starts_with s uri ≡ true → starts_with t uri ≡ false
unfolding starts_with text_eq
clash-starts_with [] t uri c h = cc
clash-starts_with (a ∷ s) [] uri c h = cc
clash-starts_with (a ∷ s) (b ∷ t) [] c h = refl
clash-starts_with (a ∷ s) (b ∷ t) (d ∷ uri) c h = ground (arith, clash-starts_with s t uri)

clash_all-starts_with :
    (s : Text) (ts : List Text) (uri : Text)
    → clash_all s ts ≡ true
    → starts_with s uri ≡ true
    → starts_with_any ts uri ≡ false
clash_all-starts_with s [] uri c h = refl
clash_all-starts_with s (t ∷ ts) uri c h =
    ground (arith, clash-starts_with s t uri, clash_all-starts_with s ts uri)

pub parts_read-info :
    (uri : Text) → starts_with (codes "/info/users") uri ≡ true → 5 ≤ parts_read uri
parts_read-info uri h = rw h (omega arith)

pub parts_read-three : (uri : Text) → 3 ≤ parts_read uri
parts_read-three uri = ground arith

-- A start of a URL whose user may be the fourth part.
pub parts_read-four :
    (start uri : Text)
    → clash_all start short_starts ≡ true
    → starts_with start uri ≡ true
    → 4 ≤ parts_read uri
parts_read-four start uri c h = rw (clash_all-starts_with start short_starts uri c h) (ground arith)

module _ ⦃P : Platform⦄ where
  pub Returning-at : (xs : List Text) (i : ℕ) → i < length xs → Returning (λ _. Unit) (at xs i)
  unfolding at
  Returning-at [] i h = absurd (omega arith)
  Returning-at (x ∷ xs) zero h = Returning-pure _ x tt
  Returning-at (x ∷ xs) (suc i) h = Returning-at xs i (omega arith)

  pub Returning-uri_item :
      (i : ℕ) (conn : Connection)
      → i < length (split conn.uri b'/')
      → Returning (λ _. Unit) (uri_item i conn)
  unfolding uri_item
  Returning-uri_item i conn h = Returning-at (split conn.uri b'/') i h

  parameter_at :
      (key : Text) (o : Option Text) (conn : Connection)
      → query_legible o ≡ true
      → Returning (λ _. Unit) (get_parameter key (record conn { query_string = o }))
  unfolding get_parameter
  parameter_at key none conn h = Returning-pure _ [] tt
  parameter_at key (some query) conn h =
      Returning-bind (λ _. Unit) _ _ _ (Returning-at (split query b'=') 0 (ground arith))
        λ k _.
          Returning-if _ (text_eq k key) _ _ (λ _. Returning-at (split query b'=') 1 (ground arith))
            (λ _. Returning-pure _ [] tt)

  pub Returning-get_parameter :
      (key : Text) (conn : Connection)
      → query_legible conn.query_string ≡ true
      → Returning (λ _. Unit) (get_parameter key conn)
  Returning-get_parameter key conn h = parameter_at key conn.query_string conn h

  token_at :
      (id token : Text) (w : World) (r : Reply)
      → Db.get (generate_user_key id suffix_token) w ≡ r
      → NotCrashed (Accounts.check_token id token w).0
  unfolding Accounts.check_token Users.get_user_token Users.get_user Access.dbh_get
      Access.answer_read pure fail_with ◌>>=◌
  token_at id token w (found saved) e = rw e (tested (text_eq token saved))
    where
      tested :
          (b : Bool)
          → NotCrashed {A = Unit {0}}
              ((if not b then fail_with status_wrong_token else pure tt) w).0
      tested true = tt
      tested false = tt
  token_at id token w not_found e = rw e tt
  token_at id token w get_error e = rw e tt

  -- The test of a request has an answer, where the user is a part of the URL.
  pub Returning-check_authorization :
      (i : ℕ) (conn : Connection)
      → i < length (split conn.uri b'/')
      → Returning (λ _. Unit) (check_authorization (uri_item i) conn)
  unfolding check_authorization
  Returning-check_authorization i conn h =
      Returning-bind (λ _. Unit) _ _ _ (Returning-uri_item i conn h)
        λ user _.
          Returning-if _ (length (get_authorization conn) == 0) _ _ (λ _. Returning-pure _ false tt)
            (λ _.
              Returning-bind (λ _. Unit) _ _ _
                (Returning-attempt (Accounts.check_token user (get_authorization conn))
                  λ w. token_at user _ w _ refl)
                λ a _. Returning-pure _ _ tt)
