-- ===== src/Rest/Json.antt =====
-- The texts that the nodes put together for elements and users.
use tp.Common.{String, List, [], ◌∷◌, ◌++◌}
use tp.Text.{Text, codes}
use tp.Text.Decimal.{to_string}
use tp.Dispatcher.Records.{InfoElement, UserProfile}

-- `"key":"value"`
abbrev pub member : String → Text → Text
member key value = codes "\"" ++ codes key ++ codes "\":\"" ++ value ++ codes "\""

abbrev pub join_behind : Text → List Text → Text
join_behind separator [] = []
join_behind separator (x ∷ xs) = separator ++ x ++ join_behind separator xs

-- All but the last are followed by the separator.
unfoldable pub join : Text → List Text → Text
join separator [] = []
join separator (x ∷ xs) = x ++ join_behind separator xs

abbrev pub comma : Text
comma = codes ","

abbrev pub comma_space : Text
comma_space = codes ", "

-- The members that every node writes of an element; the separators of the last ones differ.
abbrev element_members : Text → InfoElement → Text
element_members separator e =
    codes "{"
    ++ member "id" (to_string e.id)
    ++ comma
    ++ member "name" e.name
    ++ comma
    ++ member "size" (to_string e.size)
    ++ comma
    ++ member "type" e.kind
    ++ comma
    ++ member "cantItems" (to_string e.number_of_items)
    ++ comma
    ++ member "shared" e.shared
    ++ separator
    ++ member "lastModDate" e.last_mod_date
    ++ separator
    ++ member "userOwner" e.owner

-- An element in InfoNode and in the searches.
unfoldable pub element_json : Text → InfoElement → Text
element_json last_version e =
    element_members comma_space e ++ comma_space ++ member "lastVersion" last_version ++ codes "}"

-- An element in CreateDirNode.
unfoldable pub created_json : Text → InfoElement → Text
created_json last_version e =
    element_members comma e ++ comma ++ member "lastVersion" last_version ++ codes "}"

-- An element in InfoTrashNode.
unfoldable pub deleted_json : InfoElement → Text
deleted_json e = element_members comma e ++ codes "}"

unfoldable pub user_json : UserProfile → Text
user_json u =
    codes "{"
    ++ member "id" u.id
    ++ comma
    ++ member "firstName" u.first_name
    ++ comma
    ++ member "lastName" u.last_name
    ++ comma
    ++ member "email" u.email
    ++ codes "}"

unfoldable pub list_json : List Text → Text
list_json items = codes "[" ++ join comma items ++ codes "]"

-- `{"resultCode": "1"}`
abbrev pub result_ok : Text
result_ok = codes "{\"resultCode\": \"1\"}"

abbrev pub result_failed : Text
result_failed = codes "{\"resultCode\": \"2\"}"
