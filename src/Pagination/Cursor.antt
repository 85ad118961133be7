-- ===== src/Pagination/Cursor.antt =====
-- src/pagination/utils/cursor.ts. Dates, ObjectIds, JSON and base64 are the runtime's: a parameter.
-- A forged token whose `vals` or `types` is a truthy scalar or an array is read as having none.
pub mod RoundTrip
use mongokit.Prelude.{
  ℕ, String, ◌≡◌, Bool, true, false, not, ◌&&◌, ◌||◌, Option, none, some, List, [], ◌∷◌, ltb,
  str_eq, if◌then◌else◌, Outcome, returns, throws, ◌>>=◌, ◌>>◌, throw_if, length, leb,
}
use mongokit.Js.Object.{Object, get, has, put, keys}
use mongokit.Js.Value.{
  ℤ, pos, negsuc, Value, undefined, null, bool, num, str, oid, date, arr, obj, Fields, object,
  entries, int_lt,
}
use mongokit.Mongo.{operator}
use mongokit.Pagination.Sort.{SortSpec, non_id, ascending}
use mongokit.Pagination.Filter.{
  Filter, read, is_direction_up, operator_of, direction_or, build_keyset_filter,
}

-- What JSON writes and reads back as it is; the keys of an object are distinct.
abbrev mutual
  pub IsJson : Value → Type 0
  IsJson null = Unit
  IsJson (bool b) = Unit
  IsJson (num n) = Unit
  IsJson (str s) = Unit
  IsJson (obj f) = IsJsonFields f
  IsJson _ = ⊥

  pub IsJsonFields : Fields → Type 0
  IsJsonFields Fields.end = Unit
  IsJsonFields (Fields.field k v r) = IsJson v × IsJsonFields r

pub record Runtime : Type 1 where
  -- The texts that JSON and base64 are written as.
  pub Text : Type 0
  pub same_text : Text → Text → Bool
  -- `date.toISOString()`, `new Date(v)`, `new ObjectId(v)` (which may throw), `Number(v)`
  pub iso : ℕ → String
  pub new_date : Value → Value
  pub new_object_id : Value → Option Value
  pub to_number : Value → Value
  -- `Buffer.from(s).toString('base64')` and back, `JSON.stringify` and `JSON.parse` (which may throw)
  pub to_base64 : Text → Text
  pub from_base64 : Text → Text
  pub stringify : Value → Text
  pub parse : Text → Option Value
  -- The test `/^[a-f0-9]{24}$/i`, `new ObjectId(text)`, and what `toString()` gives of an ObjectId.
  pub is_hex24 : Text → Bool
  pub object_id_of : Text → Option Value
  pub IsObjectId : String → Type 0
  pub same_text-refl : (t : Text) → same_text t t ≡ true
  pub new_date-iso : (n : ℕ) → new_date (str (iso n)) ≡ date n
  pub new_object_id-str : (s : String) → IsObjectId s → new_object_id (str s) ≡ some (oid s)
  pub to_number-num : (n : ℤ) → to_number (num n) ≡ num n
  pub from_base64-to_base64 : (s : Text) → from_base64 (to_base64 s) ≡ s
  pub parse-stringify : (v : Value) → IsJson v → parse (stringify v) ≡ some v
  -- The text of an object begins with `{"`, and so its base64 with `ey`, which is not hexadecimal.
  pub is_hex24-to_base64 : (o : Object Value) → is_hex24 (to_base64 (stringify (object o))) ≡ false

pub data CursorError : Type 0 where
  not_json malformed unrecognized_type rehydration_failed sort_differs version_too_new
        version_too_old :
      CursorError

unfoldable pub get_value_type : Value → String
get_value_type undefined = "null"
get_value_type null = "null"
get_value_type (date n) = "date"
get_value_type (oid s) = "objectid"
get_value_type (bool b) = "boolean"
get_value_type (num n) = "number"
get_value_type (str s) = "string"
get_value_type (arr xs) = "unknown"
get_value_type (obj f) = "unknown"

abbrev pub valid_types : List String
valid_types = "date" ∷ "objectid" ∷ "boolean" ∷ "number" ∷ "string" ∷ "null" ∷ "unknown" ∷ []

unfoldable pub is_one_of : Value → List String → Bool
is_one_of (str s) (t ∷ ts) = str_eq s t || is_one_of (str s) ts
is_one_of v ts = false

unfoldable pub is_str : Value → String → Bool
is_str (str s) t = str_eq s t
is_str v t = false

unfoldable pub is_null : Value → Bool
is_null null = true
is_null v = false

unfoldable pub is_true : Value → Bool
is_true (bool b) = b
is_true (str s) = str_eq s "true"
is_true v = false

-- `v && typeof v === 'object'`
unfoldable pub is_object : Value → Bool
is_object (obj f) = true
is_object (arr xs) = true
is_object v = false

unfoldable pub as_entries : Value → Option (Object Value)
as_entries (obj f) = some (entries f)
as_entries v = none

unfoldable pub as_version : Value → Option ℤ
as_version (num n) = some n
as_version v = none

-- A sort specification as the value that JSON writes.
unfoldable pub sort_entries : SortSpec → Object Value
sort_entries [] = []
sort_entries ((k, d) ∷ s) = (k, num d) ∷ sort_entries s

pub record DecodedCursor : Type 0 where
  pub value : Value
  pub id : Value
  pub sort : Value
  pub version : ℤ
  pub values : Option (Object Value)

unfoldable pub validate_cursor_version : ℤ → ℤ → ℤ → Outcome CursorError (Unit {0})
validate_cursor_version cursor_version expected_version min_version =
    throw_if (int_lt expected_version cursor_version) version_too_new
    >> throw_if (int_lt cursor_version min_version) version_too_old

module _ (rt : Runtime) where
  open rt use {
    Text, same_text, iso, new_date, new_object_id, to_number, to_base64, from_base64, stringify,
    parse, is_hex24, object_id_of,
  }

  unfoldable pub serialize_value : Value → Value
  serialize_value undefined = null
  serialize_value null = null
  serialize_value (date n) = str (iso n)
  serialize_value (oid s) = str s
  serialize_value v = v

  -- The loop over the sort fields: `vals` and `types`.
  unfoldable pub cursor_vals : (String → Value) → List String → Object Value
  cursor_vals doc [] = []
  cursor_vals doc (f ∷ fs) = (f, serialize_value (doc f)) ∷ cursor_vals doc fs

  unfoldable pub cursor_types : (String → Value) → List String → Object Value
  cursor_types doc [] = []
  cursor_types doc (f ∷ fs) = (f, str (get_value_type (doc f))) ∷ cursor_types doc fs

  unfoldable pub compound_entries : (String → Value) → List String → Object Value
  compound_entries doc fs =
      if ltb 1 (length fs)
      then ("vals", object (cursor_vals doc fs)) ∷ ("types", object (cursor_types doc fs)) ∷ []
      else []

  unfoldable pub payload_of : (String → Value) → String → SortSpec → ℤ → Object Value
  payload_of doc primary_field sort version =
      ("v", serialize_value (doc primary_field))
      ∷ ("t", str (get_value_type (doc primary_field)))
      ∷ ("id", serialize_value (doc "_id"))
      ∷ ("idType", str (get_value_type (doc "_id")))
      ∷ ("sort", object (sort_entries sort))
      ∷ ("ver", num version)
      ∷ compound_entries doc (keys (non_id sort))

  unfoldable pub encode_cursor : (String → Value) → String → SortSpec → ℤ → Text
  encode_cursor doc primary_field sort version =
      to_base64 (stringify (object (payload_of doc primary_field sort version)))

  unfoldable pub rehydrate_value : Value → Value → Option Value
  rehydrate_value serialized type =
      if is_str type "null" || is_null serialized
      then some null
      else if is_str type "date"
      then some (new_date serialized)
      else if is_str type "objectid"
      then new_object_id serialized
      else if is_str type "boolean"
      then some (bool (is_true serialized))
      else if is_str type "number"
      then some (to_number serialized)
      else some serialized

  unfoldable pub or_throw {ℓ} : {A : Type ℓ} → CursorError → Option A → Outcome CursorError A
  or_throw e none = throws e
  or_throw e (some a) = returns a

  unfoldable pub rehydrate_all : Object Value → Object Value → Outcome CursorError (Object Value)
  rehydrate_all types [] = returns []
  rehydrate_all types ((field, serialized) ∷ vals) = do
    v ← or_throw rehydration_failed (rehydrate_value serialized (read types field))
    rest ← rehydrate_all types vals
    returns ((field, v) ∷ rest)

  -- `if (payload.vals && payload.types)`
  unfoldable pub rehydrate_vals :
      Option (Object Value) → Option (Object Value) → Outcome CursorError (Option (Object Value))
  rehydrate_vals (some vals) (some types) = do
    values ← rehydrate_all types vals
    returns (some values)
  rehydrate_vals _ _ = returns none

  unfoldable pub decode_fields :
      Value
      → Value
      → Value
      → Value
      → Value
      → ℤ
      → Option (Object Value)
      → Outcome CursorError DecodedCursor
  decode_fields v t id id_type sort version values = do
    value ← or_throw rehydration_failed (rehydrate_value v t)
    id_value ← or_throw rehydration_failed (rehydrate_value id id_type)
    returns
        (record { value = value; id = id_value; sort = sort; version = version; values = values })

  unfoldable pub decode_payload : Object Value → Outcome CursorError DecodedCursor
  decode_payload p = do
    throw_if
        (not (has "v" p && has "t" p && has "id" p && has "idType" p && is_object (read p "sort")))
        malformed
    version ← or_throw malformed (as_version (read p "ver"))
    throw_if (not (is_one_of (read p "t") valid_types && is_one_of (read p "idType") valid_types))
        unrecognized_type
    values ← rehydrate_vals (as_entries (read p "vals")) (as_entries (read p "types"))
    decode_fields (read p "v") (read p "t") (read p "id") (read p "idType") (read p "sort") version
        values

  unfoldable pub decode_cursor : Text → Outcome CursorError DecodedCursor
  decode_cursor token = do
    parsed ← or_throw not_json (parse (from_base64 token))
    payload ← or_throw malformed (as_entries parsed)
    decode_payload payload

  unfoldable pub validate_cursor_sort : Value → SortSpec → Outcome CursorError (Unit {0})
  validate_cursor_sort cursor_sort current_sort =
      throw_if
        (not (same_text (stringify cursor_sort) (stringify (object (sort_entries current_sort)))))
        sort_differs

  -- The filter from a plain `_id`: `sort._id || -1`, where 0 counts as absent and so is downwards.
  unfoldable pub id_filter : Value → SortSpec → Filter → Filter
  id_filter object_id sort base = put "_id" (operator (operator_of (get "_id" sort)) object_id) base

  unfoldable pub resolve_token : Text → SortSpec → ℤ → Filter → ℤ → Outcome CursorError Filter
  resolve_token after sort cursor_version base min_cursor_version = do
    cursor ← decode_cursor after
    validate_cursor_version cursor.version cursor_version min_cursor_version
    validate_cursor_sort cursor.sort sort
    returns (build_keyset_filter base sort cursor.value cursor.id cursor.values)

  unfoldable pub resolve_cursor_filter :
      Text → SortSpec → ℤ → Filter → ℤ → Outcome CursorError Filter
  resolve_cursor_filter after sort cursor_version base min_cursor_version =
      if is_hex24 after
      then (do
        object_id ← or_throw rehydration_failed (object_id_of after)
        returns (id_filter object_id sort base))
      else resolve_token after sort cursor_version base min_cursor_version
