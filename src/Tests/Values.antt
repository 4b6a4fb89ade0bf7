-- ===== src/Tests/Values.antt =====
-- What the theorems on keys, lists, ids and entries say at concrete values.
use tp.Common.{some, ℕ, ◌+◌, ◌%◌, ◌≡◌, ◌≢◌, refl, [], ◌∷◌, ◌++◌, if◌then◌else◌, arith}
use tp.Text.{Text, codes, text_eq}
use tp.Text.Split.{IsToken}
use tp.Text.KeyList.{
  tokens, contains, add_key_to_string_list, remove_key_from_string_list, divide_selected_ids,
  others, selected, unselected, tokens-add_key, tokens-remove_key, tokens-divide,
}
use tp.Text.Decimal.{stoul, stoul-to_string, to_string, value, word}
use tp.World.{Content, put_content, World, Outcome, done, failed}
use tp.Db
use tp.Db.Laws.{stored}
use tp.Db.Memory.{memory}
use tp.Data.Constants.{suffix_name, suffix_file_id, suffix_files_contained}
use tp.Data.Keys.{
  generate_user_key, generate_dir_key, generate_file_key, generate_ticket_key, email_index_key,
}
use tp.Data.Keys.Laws.{file_key_injective}
use tp.Data.Access
use tp.Data.Access.Tickets.{create_id_fresh}
use tp.Data.Directories
use tp.Data.Directories.{DirInfo}
use tp.Data.Files
use tp.Data.Stored.{FileStored, DirStored}
use tp.Data.Stored.Readers.{FileStored-get_file_info, get_file_info-FileStored}
use tp.Data.Stored.Writers.{
  FileWritten, DirWritten, modify_file_info-FileWritten, modify_directory_info-DirWritten,
}
use tp.Data.Stored.Creation.{FileCreated, add_file-FileCreated}
use tp.Data.Stored.Apart.{modify_file_info_keeps_others, add_file_keeps_files}
use tp.Util.Hex.{bin2hex, hex2bin, hex2bin-bin2hex}
use tp.Data.Stored.Total.{Faultless, add_file_returns}
use tp.Tests.{start, notes, root, notes-FileStored, root-DirStored, start-Reliable}

abbrev upload : Outcome Text × World
upload =
    Files.add_file (codes "1") (codes "plan") (codes "txt") (codes "d2") (codes "7") (codes "1")
      (codes "1") start

upload_done : upload ≡ (done (codes "2"), upload.1)
unfolding Files.add_file Directories.get_dir Access.dbh_get Access.answer_read Access.create_id
    Access.take_ticket Files.write_new_file Files.put_file Directories.put_dir
    Access.write_batch_or_error Db.get Db.put Db.clear_batch Db.put_batch Db.write_batch
    generate_user_key generate_dir_key generate_file_key generate_ticket_key email_index_key text_eq
    stoul to_string tp.World.◌>>=◌ tp.World.or_status
upload_done = refl

start-Faultless : Faultless start
start-Faultless = record {
  handle = stored start;
  is_open = refl;
  reads = start-Reliable;
  puts = λ d k v. refl;
  writes = λ d us. refl;
}

listed : stored start (generate_dir_key (codes "1") suffix_files_contained) ≡ some (codes ";1")
unfolding generate_user_key generate_dir_key generate_file_key generate_ticket_key email_index_key
    text_eq
listed = refl

ticket : stored start (generate_ticket_key suffix_file_id) ≡ some (codes "2")
unfolding generate_user_key generate_dir_key generate_file_key generate_ticket_key email_index_key
    text_eq
ticket = refl

two : stoul (codes "2") ≡ value 2
unfolding stoul
two = refl

add_file_returns_example : upload.0 ≡ done (codes "2")
add_file_returns_example =
    add_file_returns (codes "1") (codes "plan") (codes "txt") (codes "d2") (codes "7") (codes "1")
      (codes "1") (codes ";1") (codes "2") 2 start start-Faultless listed ticket two

add_file-FileCreated_example :
    FileCreated
      (codes "1")
      (codes "plan")
      (codes "txt")
      (codes "d2")
      (codes "7")
      (codes "1")
      (codes "1")
      (codes "2")
      start
      upload.1
add_file-FileCreated_example =
    add_file-FileCreated (codes "1") (codes "plan") (codes "txt") (codes "d2") (codes "7")
      (codes "1") (codes "1") (codes "2") start upload.1 upload_done

modify_file_info-FileWritten_example :
    FileWritten
      (codes "1")
      (record notes { name = codes "plan"; date_last_mod = codes "d2"; user_last_mod = codes "2" })
      start
      (Files.modify_file_info
        (codes "1")
        (codes "plan")
        (codes "txt")
        (codes "d2")
        []
        []
        (codes "2")
        (codes "1")
        start)
modify_file_info-FileWritten_example =
    modify_file_info-FileWritten (codes "1") (codes "plan") (codes "txt") (codes "d2") [] []
      (codes "2") (codes "1") notes start notes-FileStored

add_file_keeps_files_example : FileStored (stored upload.1) (codes "1") notes
add_file_keeps_files_example =
    add_file_keeps_files (codes "1") (codes "plan") (codes "txt") (codes "d2") (codes "7")
      (codes "1") (codes "1") (codes "2") (codes "1") notes start upload.1 upload_done (refl, tt)
      (refl, tt) (λ e. ground arith) notes-FileStored

-- The file that was there, in the state behind the upload.
notes_kept : FileStored (stored upload.1) (codes "1") notes
notes_kept =
    add_file_keeps_files _ _ _ _ _ _ _ (codes "2") (codes "1") notes start upload.1 upload_done
      (refl, tt) (refl, tt) (λ e. ground arith) notes-FileStored

abbrev root_with_two : DirInfo
root_with_two = record root { files_contained = codes ";1;2" }

root_listing : DirStored (stored upload.1) (codes "1") root_with_two
unfolding Files.add_file Directories.get_dir Access.dbh_get Access.answer_read Access.create_id
    Access.take_ticket Files.write_new_file Files.put_file Directories.put_dir
    Access.write_batch_or_error Db.get Db.put Db.clear_batch Db.put_batch Db.write_batch
    generate_user_key generate_dir_key generate_file_key generate_ticket_key email_index_key text_eq
    stoul to_string tp.World.◌>>=◌ tp.World.or_status tp.World.apply_batch
root_listing = record {
  name = refl;
  date_last_mod = refl;
  tags = refl;
  owner = refl;
  parent_directory = refl;
  files_contained = refl;
  directories_contained = refl;
  size = refl;
}

modify_file_info_keeps_others_example :
    let w' =
      (Files.modify_file_info
        (codes "2")
        (codes "plan")
        (codes "md")
        (codes "d3")
        []
        []
        (codes "1")
        (codes "1")
        upload.1).1 in
    FileStored (stored w') (codes "1") notes × DirStored (stored w') (codes "1") root_with_two
modify_file_info_keeps_others_example =
    modify_file_info_keeps_others (codes "2") (codes "plan") (codes "md") (codes "d3") [] []
      (codes "1") (codes "1") _ (codes "1") notes (codes "1") root_with_two upload.1 (refl, tt)
      (refl, tt) (λ e. ground arith) add_file-FileCreated_example.file notes_kept root_listing

modify_directory_info-DirWritten_example :
    DirWritten
      (codes "1")
      (record root { date_last_mod = codes "d2"; size = codes "9" })
      start
      (Directories.modify_directory_info
        (codes "1")
        (codes "root")
        (codes "d2")
        []
        (codes "9")
        start)
modify_directory_info-DirWritten_example =
    modify_directory_info-DirWritten (codes "1") (codes "root") (codes "d2") [] (codes "9") root
      start root-DirStored

FileStored-get_file_info_example : Files.get_file_info (codes "1") start ≡ (done notes, start)
FileStored-get_file_info_example =
    FileStored-get_file_info (codes "1") notes start start-Reliable notes-FileStored

notes_read : Files.get_file_info (codes "1") start ≡ (done notes, start)
unfolding Files.get_file_info Files.get_file Access.dbh_get Access.answer_read Db.get
    generate_user_key generate_dir_key generate_file_key generate_ticket_key email_index_key text_eq
    tp.World.◌>>=◌
notes_read = refl

get_file_info-FileStored_example : (start ≡ start) × FileStored (stored start) (codes "1") notes
get_file_info-FileStored_example = get_file_info-FileStored (codes "1") notes start notes_read

abbrev first_id : Outcome Text × World
first_id = Access.create_id suffix_file_id start

abbrev second_id : Outcome Text × World
second_id = Access.create_id suffix_file_id first_id.1

first_done : first_id ≡ (done (codes "2"), first_id.1)
unfolding Access.create_id Access.take_ticket Db.get Db.put generate_user_key generate_dir_key
    generate_file_key generate_ticket_key email_index_key text_eq stoul to_string tp.World.◌>>=◌
first_done = refl

second_done : second_id ≡ (done (codes "3"), second_id.1)
unfolding Access.create_id Access.take_ticket Db.get Db.put generate_user_key generate_dir_key
    generate_file_key generate_ticket_key email_index_key text_eq stoul to_string tp.World.◌>>=◌
second_done = refl

create_id_fresh_example :
    (n : ℕ) × (stoul (codes "2") ≡ value n)
    × (codes "3" ≡ to_string ((n + 1) % word))
    × (codes "2" ≢ codes "3")
create_id_fresh_example =
    create_id_fresh suffix_file_id (codes "2") (codes "3") start first_id.1 first_id.1 second_id.1
      first_done refl second_done

hex2bin-bin2hex_example : hex2bin (bin2hex (0 ∷ 171 ∷ 255 ∷ [])) ≡ 0 ∷ 171 ∷ 255 ∷ []
hex2bin-bin2hex_example =
    hex2bin-bin2hex (0 ∷ 171 ∷ 255 ∷ []) (omega arith, (omega arith, (omega arith, tt)))

seven-IsKey : IsToken b';' (codes "7")
seven-IsKey = record { nonempty = λ e. cc; free = (refl, tt) }

tokens-add_key_example : tokens (add_key_to_string_list (codes ";1;2") (codes "7")) ≡ (
    if contains (codes "7") (tokens (codes ";1;2"))
    then tokens (codes ";1;2")
    else tokens (codes ";1;2") ++ codes "7" ∷ [])
tokens-add_key_example = tokens-add_key (codes ";1;2") (codes "7") seven-IsKey

tokens-remove_key_example :
    tokens (remove_key_from_string_list (codes ";1;2;1") (codes "1"))
    ≡ others (codes "1") (tokens (codes ";1;2;1"))
tokens-remove_key_example = tokens-remove_key (codes ";1;2;1") (codes "1")

tokens-divide_example :
    let (coincidence, no_coincidence) = divide_selected_ids (codes ";1;2;3") (codes "2" ∷ []) in
    (tokens coincidence ≡ selected (codes "2" ∷ []) (tokens (codes ";1;2;3")))
    × (tokens no_coincidence ≡ unselected (codes "2" ∷ []) (tokens (codes ";1;2;3")))
tokens-divide_example = tokens-divide (codes ";1;2;3") (codes "2" ∷ [])

stoul-to_string_example : stoul (to_string 42) ≡ value 42
stoul-to_string_example = stoul-to_string 42 (omega arith)

file_key_injective_example : (codes "12" ≡ codes "12") × (suffix_name ≡ suffix_name)
file_key_injective_example =
    file_key_injective (codes "12") (codes "12") suffix_name suffix_name (refl, (refl, tt))
      (refl, (refl, tt)) refl refl refl
