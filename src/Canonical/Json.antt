-- ===== src/Canonical/Json.antt =====
-- The canonical_state documents that encoding/json writes and reads, as trees. The text of a
-- document is a function of its tree; `raw` stands for a text that does not decode.
use luars_stoatcord.Prelude.{String, Bool, false, List, [], ◌∷◌, ◌==◌, if◌then◌else◌}
use luars_stoatcord.Prelude.Int.{ℤ, pos}
use luars_stoatcord.Canonical.Result.{Result, ok, err, Error, failed, ◌>>=◌}

mutual
  pub data Json : Type 0 where
    null : Json
    bool : Bool → Json
    num : ℤ → Json
    str : String → Json
    arr : Items → Json
    obj : Fields → Json
    raw : String → Json

  pub data Items : Type 0 where
    nil : Items
    cons : Json → Items → Items

  pub data Fields : Type 0 where
    end : Fields
    field : String → Json → Fields → Fields

abbrev pub decode_error : Error
decode_error = failed "json: cannot decode"

-- The value of a key, `null` where it is missing: both leave the Go field at its zero value.
abbrev pub get_field : String → Fields → Json
get_field k end = null
get_field k (field j v fs) = if j == k then v else get_field k fs

abbrev pub as_fields : Json → Result Fields
as_fields (obj fs) = ok fs
as_fields null = ok end
as_fields _ = err decode_error

abbrev pub as_string : Json → Result String
as_string (str s) = ok s
as_string null = ok ""
as_string _ = err decode_error

abbrev pub as_bool : Json → Result Bool
as_bool (bool b) = ok b
as_bool null = ok false
as_bool _ = err decode_error

abbrev pub as_int : Json → Result ℤ
as_int (num n) = ok n
as_int null = ok (pos 0)
as_int _ = err decode_error

abbrev pub strings : List String → Items
strings [] = nil
strings (s ∷ ss) = cons (str s) (strings ss)

abbrev items_strings : Items → Result (List String)
items_strings nil = ok []
items_strings (cons j js) = do s ← as_string j; ss ← items_strings js; ok (s ∷ ss)

abbrev pub as_strings : Json → Result (List String)
as_strings (arr js) = items_strings js
as_strings null = ok []
as_strings _ = err decode_error

-- messageCanonicalFields of internal/store/message.go: the channel id of a message's document
unfoldable pub decode_channel_id : Json → Result String
decode_channel_id j = do fs ← as_fields j; as_string (get_field "channel_id" fs)
