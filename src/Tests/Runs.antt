-- ===== src/Tests/Runs.antt =====
-- What the theorems say of runs on the small server.
use tp.Common.{◌≡◌, refl, true, false, Option, none, some, [], if◌then◌else◌}
use tp.Text.{Text, codes, text_eq}
use tp.Text.Split.{split_string}
use tp.Text.KeyList.{contains}
use tp.Text.Decimal.{stoul, to_string}
use tp.World.{Content, put_content, World, Outcome, done, failed}
use tp.Db
use tp.Db.Laws.{stored}
use tp.Db.Memory.{memory, answer}
use tp.Data.Constants.{suffix_password, suffix_token, status_user_forbidden, status_wrong_token}
use tp.Data.Keys.{
  generate_user_key, generate_dir_key, generate_file_key, generate_ticket_key, email_index_key,
}
use tp.Data.Access
use tp.Data.Users
use tp.Data.Files
use tp.Data.Files.{FileInfo}
use tp.Data.Stored.{FileStored}
use tp.Data.Stored.Readers.{FileStored-get_file_info}
use tp.Dispatcher.Records.{stoul_decimal}
use tp.Dispatcher.Accounts
use tp.Dispatcher.Requests.{perform, share_file, perform_keeps_credentials}
use tp.Data.Directories
use tp.Data.Directories.{DirInfo}
use tp.Data.Stored.{DirStored}
use tp.Dispatcher.Owners.{ask, rename, Means, ask_owner}
use tp.Dispatcher.Guards.{act, allowed, share, change, act-allowed, act_forbidden}
use tp.Dispatcher.Sessions.{LoggedIn, log_in-LoggedIn, log_in_opens_session, check_token_exact}
use tp.Tests.{start, notes, notes-FileStored, start-Reliable}

perform_keeps_credentials_example :
    let w' = (perform (share_file (codes "1") (codes "1") (codes "1") (codes "d2")) start).1 in
    (stored w' (generate_user_key (codes "1") suffix_password)
      ≡ stored start (generate_user_key (codes "1") suffix_password))
    × (stored w' (generate_user_key (codes "1") suffix_token)
        ≡ stored start (generate_user_key (codes "1") suffix_token))
perform_keeps_credentials_example =
    perform_keeps_credentials (share_file (codes "1") (codes "1") (codes "1") (codes "d2"))
      (codes "1") start

abbrev renaming : Outcome (Unit {0}) × World
renaming = act (change (codes "plan") (codes "txt") (codes "d2") []) (codes "1") (codes "1") start

renaming_done : renaming ≡ (done tt, renaming.1)
unfolding act tp.Dispatcher.Listing.modify_file_info tp.Dispatcher.Listing.is_authorized
    Files.get_file_info Files.get_file Files.modify_file_info Files.put_file Access.dbh_get
    Access.answer_read Access.write_batch_or_error Db.get Db.clear_batch Db.put_batch Db.write_batch
    contains split_string generate_user_key generate_dir_key generate_file_key generate_ticket_key
    email_index_key text_eq tp.World.◌>>=◌
renaming_done = refl

act-allowed_example :
    (info : FileInfo) × FileStored (stored start) (codes "1") info
    × (allowed (change (codes "plan") (codes "txt") (codes "d2") []) (codes "1") info ≡ true)
act-allowed_example =
    act-allowed (change (codes "plan") (codes "txt") (codes "d2") []) (codes "1") (codes "1") start
      renaming.1 renaming_done

denied : text_eq (codes "1") (codes "2") ≡ false
unfolding text_eq
denied = refl

-- User 2 does not own the file, and may not share it.
act_forbidden_example :
    act (share (codes "3") (codes "d2")) (codes "2") (codes "1") start
    ≡ (failed, record start { status = status_user_forbidden })
act_forbidden_example =
    act_forbidden (share (codes "3") (codes "d2")) (codes "2") (codes "1") notes start
      (FileStored-get_file_info (codes "1") notes start start-Reliable notes-FileStored) denied

-- The owner renames his root directory, under its own id.
abbrev moved : Outcome (Unit {0}) × World
moved = ask (rename (codes "home") (codes "d2") []) (codes "1") (codes "1") start

moved_done : moved ≡ (done tt, moved.1)
unfolding ask tp.Dispatcher.Listing.modify_directory_info Directories.get_directory_info
    Directories.get_dir Directories.modify_directory_info Directories.put_dir Access.dbh_get
    Access.answer_read Access.write_batch_or_error Db.get Db.clear_batch Db.put_batch Db.write_batch
    generate_user_key generate_dir_key generate_file_key generate_ticket_key email_index_key text_eq
    tp.World.◌>>=◌
moved_done = refl

ask_owner_example :
    (real : Text) × (info : DirInfo) × Means start (codes "1") (codes "1") real
    × DirStored (stored start) real info
    × (text_eq (codes "1") info.owner ≡ true)
ask_owner_example =
    ask_owner (rename (codes "home") (codes "d2") []) (codes "1") (codes "1") start moved.1
      moved_done

abbrev pub session : Outcome (Text × Text) × World
session = Accounts.log_in (codes "ana@mail") (codes "secret") (codes "new") start

pub session_done : session ≡ (done (codes "1", codes "15"), session.1)
unfolding Accounts.log_in Users.get_user_password Users.get_user Access.get_email_user_id_index
    Access.dbh_get Access.answer_read Db.get Users.add_user_token Access.dbh_put Db.put
    Users.get_user_info generate_user_key generate_dir_key generate_file_key generate_ticket_key
    email_index_key text_eq stoul_decimal stoul to_string tp.World.◌>>=◌
session_done = refl

pub session_db :
    session.1.db
    ≡ some (put_content (generate_user_key (codes "1") suffix_token) (codes "new") (stored start))
unfolding Accounts.log_in Users.get_user_password Users.get_user Access.get_email_user_id_index
    Access.dbh_get Access.answer_read Db.get Users.add_user_token Access.dbh_put Db.put
    Users.get_user_info generate_user_key generate_dir_key generate_file_key generate_ticket_key
    email_index_key text_eq stoul_decimal stoul to_string tp.World.◌>>=◌
session_db = refl

log_in-LoggedIn_example :
    LoggedIn (codes "ana@mail") (codes "secret") (codes "new") (codes "1") start session.1
log_in-LoggedIn_example =
    log_in-LoggedIn (codes "ana@mail") (codes "secret") (codes "new") (codes "1") (codes "15") start
      session.1 session_done

pub memory_Reliable :
    (w : World) (o : Option Content) {c : Content}
    → o ≡ some c
    → (k : Text) → Db.get k (record w { db = o }) ≡ answer (stored (record w { db = o }) k)
unfolding Db.get
memory_Reliable w none e k = cc
memory_Reliable w (some c) e k = refl

log_in_opens_session_example :
    Accounts.check_token (codes "1") (codes "new") session.1 ≡ (done tt, session.1)
log_in_opens_session_example =
    log_in_opens_session (codes "ana@mail") (codes "secret") (codes "new") (codes "1") (codes "15")
      start session.1 session_done (memory_Reliable session.1 session.1.db session_db)

held : stored start (generate_user_key (codes "1") suffix_token) ≡ some (codes "old")
unfolding generate_user_key generate_dir_key generate_file_key generate_ticket_key email_index_key
    text_eq
held = refl

check_token_exact_example : Accounts.check_token (codes "1") (codes "new") start ≡ (
    if text_eq (codes "new") (codes "old")
    then (done tt, start)
    else (failed, record start { status = status_wrong_token }))
check_token_exact_example =
    check_token_exact (codes "1") (codes "new") (codes "old") start start-Reliable held
