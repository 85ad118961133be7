-- ===== src/Claim/Ids.antt =====
-- `isValidIdForType` of src/utils/id-resolution.ts. What mongoose and the engine decide is a
-- parameter.
use mongokit.Prelude.{String, Bool, true, false, not, ◌&&◌, str_eq}
use mongokit.Js.Value.{Value, undefined, null, str, oid, date, arr, obj}

pub data IdType : Type 0 where
  objectid string number uuid unknown : IdType

pub record IdRuntime : Type 0 where
  -- `mongoose.Types.ObjectId.isValid(v)`, `String(v)`, `Number.isFinite(Number(v))`, `UUID_RE.test`
  pub object_id_is_valid : Value → Bool
  pub text_of : Value → String
  pub is_finite : Value → Bool
  pub is_uuid : String → Bool

unfoldable pub is_uuid_string : (String → Bool) → Value → Bool
is_uuid_string is_uuid (str s) = is_uuid s
is_uuid_string is_uuid v = false

-- `typeof id === 'object'`
unfoldable pub is_boxed : Value → Bool
is_boxed (oid s) = true
is_boxed (date n) = true
is_boxed (arr xs) = true
is_boxed (obj f) = true
is_boxed v = false

unfoldable pub is_object_id : IdRuntime → Value → Bool
is_object_id rt id = elim (is_boxed id) [
  | true ↦ rt.object_id_is_valid id
  | false ↦ not (str_eq (rt.text_of id) "") && rt.object_id_is_valid (str (rt.text_of id))
]

unfoldable pub is_valid_present : IdRuntime → Value → IdType → Bool
is_valid_present rt id IdType.objectid = is_object_id rt id
is_valid_present rt id IdType.string = not (str_eq (rt.text_of id) "")
is_valid_present rt id IdType.number = rt.is_finite id
is_valid_present rt id IdType.uuid = is_uuid_string rt.is_uuid id
is_valid_present rt id IdType.unknown = not (str_eq (rt.text_of id) "")

unfoldable pub is_valid_id_for_type : IdRuntime → Value → IdType → Bool
is_valid_id_for_type rt undefined t = false
is_valid_id_for_type rt null t = false
is_valid_id_for_type rt v t = is_valid_present rt v t
