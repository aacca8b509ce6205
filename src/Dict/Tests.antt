-- ===== src/Dict/Tests.antt =====
-- A new dictionary, with the length of a text for its hash.
use Prim.Native.String.{len}
use manglekit.Common.{ℕ, ◌≡◌, String, some, arith}
use manglekit.Dict.{new_sharded_dict, get_or_create_id, get_string}
use manglekit.Dict.Interned.{IsDict, new-IsDict, get_or_create_id-IsDict}

get_or_create_id-IsDict_example :
    let (id, d') = get_or_create_id len "subject" new_sharded_dict in
    IsDict len d'
    × (get_string id d' ≡ some "subject")
    × ((k : ℕ) (t : String) → get_string k new_sharded_dict ≡ some t → get_string k d' ≡ some t)
get_or_create_id-IsDict_example =
    get_or_create_id-IsDict len "subject" new_sharded_dict (new-IsDict len) (omega arith)
