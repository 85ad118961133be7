-- ===== src/Pagination/Cursor/RoundTrip.antt =====
-- A cursor that is encoded from a row decodes to that row's values.
use mongokit.Prelude.{
  String, ◌≡◌, refl, ap, ◌∙◌, true, false, Option, none, some, List, [], ◌∷◌, arith, ltb, length,
  str_eq, eq_iff, Bool-cases, inl, inr, Outcome, returns, returns->>=,
}
use mongokit.Js.Object.{Object, get, has, keys}
use mongokit.Js.Value.{
  ℤ, Value, undefined, null, bool, num, str, oid, date, arr, obj, fields, object, entries-fields,
}
use mongokit.Pagination.Sort.{SortSpec, includes, non_id}
use mongokit.Pagination.Filter.{read}
use mongokit.Pagination.Filter.Behind.{row_values, cursor_values, includes_head, includes_tail}
use mongokit.Pagination.Cursor.{
  IsJson, IsJsonFields, Runtime, CursorError, rehydration_failed, malformed, DecodedCursor,
  get_value_type, is_one_of, valid_types, is_object, as_entries, as_version, sort_entries,
  serialize_value, cursor_vals, cursor_types, compound_entries, payload_of, encode_cursor,
  rehydrate_value, or_throw, rehydrate_all, rehydrate_vals, decode_fields, decode_payload,
  decode_cursor, is_str, is_null, is_true,
}

many : (f g : String) (fs : List String) → ltb 1 (length (f ∷ g ∷ fs)) ≡ true
many f g fs = ground arith

module _ (rt : Runtime) where
  -- A scalar of a stored document.
  abbrev pub IsStorable : Value → Type 0
  IsStorable undefined = ⊥
  IsStorable (oid s) = rt.IsObjectId s
  IsStorable (arr xs) = ⊥
  IsStorable (obj f) = ⊥
  IsStorable _ = Unit

  rehydrate-serialize :
      (v : Value)
      → IsStorable v
      → rehydrate_value rt (serialize_value rt v) (str (get_value_type v)) ≡ some v
  unfolding rehydrate_value serialize_value get_value_type is_str is_null is_true
  rehydrate-serialize undefined h = absurd h
  rehydrate-serialize null h = refl
  rehydrate-serialize (bool true) h = refl
  rehydrate-serialize (bool false) h = refl
  rehydrate-serialize (num n) h = ap some (rt.to_number-num n)
  rehydrate-serialize (str s) h = refl
  rehydrate-serialize (oid s) h = rt.new_object_id-str s h
  rehydrate-serialize (date n) h = ap some (rt.new_date-iso n)
  rehydrate-serialize (arr xs) h = absurd h
  rehydrate-serialize (obj f) h = absurd h

  object-lem : (o : Object Value) → or_throw rt malformed (as_entries (object o)) ≡ returns o
  unfolding or_throw as_entries object
  object-lem o = ap returns (entries-fields o)

  value-lem :
      (v : Value)
      → IsStorable v
      → or_throw rt rehydration_failed
          (rehydrate_value rt (serialize_value rt v) (str (get_value_type v)))
        ≡ returns v
  unfolding or_throw
  value-lem v h = rw (rehydrate-serialize v h)

  serialize_value-IsJson : (v : Value) → IsStorable v → IsJson (serialize_value rt v)
  unfolding serialize_value
  serialize_value-IsJson undefined h = absurd h
  serialize_value-IsJson null h = tt
  serialize_value-IsJson (bool b) h = tt
  serialize_value-IsJson (num n) h = tt
  serialize_value-IsJson (str s) h = tt
  serialize_value-IsJson (oid s) h = tt
  serialize_value-IsJson (date n) h = tt
  serialize_value-IsJson (arr xs) h = absurd h
  serialize_value-IsJson (obj f) h = absurd h

  get_value_type-valid : (v : Value) → is_one_of (str (get_value_type v)) valid_types ≡ true
  unfolding get_value_type is_one_of
  get_value_type-valid undefined = refl
  get_value_type-valid null = refl
  get_value_type-valid (bool b) = refl
  get_value_type-valid (num n) = refl
  get_value_type-valid (str s) = refl
  get_value_type-valid (oid s) = refl
  get_value_type-valid (date n) = refl
  get_value_type-valid (arr xs) = refl
  get_value_type-valid (obj f) = refl

  sort_entries-IsJson : (s : SortSpec) → IsJsonFields (fields (sort_entries s))
  unfolding fields sort_entries
  sort_entries-IsJson [] = tt
  sort_entries-IsJson ((k, d) ∷ s) = (tt, sort_entries-IsJson s)

  module _ (doc : String → Value) where
    read-cursor_types :
        (fs : List String) (f : String)
        → includes fs f ≡ true
        → read (cursor_types rt doc fs) f ≡ str (get_value_type (doc f))
    unfolding read get cursor_types includes
    read-cursor_types [] f h = cc
    read-cursor_types (g ∷ fs) f h = elim (Bool-cases (str_eq g f)) [
      | inl e ↦ rw (e, read) (ap (λ k. str (get_value_type (doc k))) ((eq_iff g f).0 e))
      | inr e ↦ rw (e, read) (read-cursor_types fs f (rw e at h))
    ]

    rehydrate_all-lem :
        (types : Object Value) (fs : List String)
        → ((f : String) → includes fs f ≡ true → IsStorable (doc f))
        → ((f : String) → includes fs f ≡ true → read types f ≡ str (get_value_type (doc f)))
        → rehydrate_all rt types (cursor_vals rt doc fs) ≡ returns (row_values doc fs)
    unfolding rehydrate_all cursor_vals or_throw
    rehydrate_all-lem types [] s t = refl
    rehydrate_all-lem types (f ∷ fs) s t =
        let here = includes_head f fs in
        rw
          (
            t f here,
            rehydrate-serialize (doc f) (s f here),
            rehydrate_all-lem types fs (λ g p. s g (includes_tail g f fs p))
                (λ g p. t g (includes_tail g f fs p)),
          )
          refl

    cursor_vals-IsJson :
        (fs : List String)
        → ((f : String) → includes fs f ≡ true → IsStorable (doc f))
        → IsJsonFields (fields (cursor_vals rt doc fs))
          × IsJsonFields (fields (cursor_types rt doc fs))
    unfolding fields cursor_vals cursor_types
    cursor_vals-IsJson [] s = (tt, tt)
    cursor_vals-IsJson (f ∷ fs) s =
        let (v, t) = cursor_vals-IsJson fs (λ g p. s g (includes_tail g f fs p)) in
        ((serialize_value-IsJson (doc f) (s f (includes_head f fs)), v), (tt, t))

    -- The optional parts of the payload come back as the values of the row.
    vals-lem :
        (fs : List String)
        → ((f : String) → includes fs f ≡ true → IsStorable (doc f))
        → rehydrate_vals rt
            (as_entries (object (cursor_vals rt doc fs)))
            (as_entries (object (cursor_types rt doc fs)))
          ≡ returns (some (row_values doc fs))
    unfolding rehydrate_vals as_entries object
    vals-lem fs s =
        rw
          (
            entries-fields (cursor_vals rt doc fs),
            entries-fields (cursor_types rt doc fs),
            rehydrate_all-lem (cursor_types rt doc fs) fs s (read-cursor_types fs),
          )
          refl

    module _ (sort : SortSpec) (version : ℤ) (primary : String) where
      abbrev pub decoded : List String → DecodedCursor
      decoded names = record {
        value = doc primary;
        id = doc "_id";
        sort = object (sort_entries sort);
        version = version;
        values = cursor_values doc names;
      }

      -- The last step of decoding, from the values of the row.
      abbrev fields_of : Option (Object Value) → Outcome CursorError DecodedCursor
      fields_of values =
          decode_fields rt (serialize_value rt (doc primary)) (str (get_value_type (doc primary)))
            (serialize_value rt (doc "_id")) (str (get_value_type (doc "_id")))
            (object (sort_entries sort)) version values

      decode_fields-lem :
          (values : Option (Object Value))
          → IsStorable (doc primary)
          → IsStorable (doc "_id")
          → fields_of values
            ≡ returns (record {
              value = doc primary;
              id = doc "_id";
              sort = object (sort_entries sort);
              version = version;
              values = values;
            })
      unfolding decode_fields
      decode_fields-lem values p i = rw (value-lem (doc primary) p, value-lem (doc "_id") i)

      decode_payload-lem :
          (names : List String)
          → keys (non_id sort) ≡ names
          → IsStorable (doc primary)
          → IsStorable (doc "_id")
          → ((f : String) → includes names f ≡ true → IsStorable (doc f))
          → decode_payload rt (payload_of rt doc primary sort version) ≡ returns (decoded names)
      unfolding decode_payload payload_of compound_entries has get read is_object object as_version
          or_throw as_entries rehydrate_vals
      decode_payload-lem [] e p i s =
          rw (e, get_value_type-valid (doc primary), get_value_type-valid (doc "_id"))
            (decode_fields-lem none p i)
      decode_payload-lem (f ∷ []) e p i s =
          rw (e, get_value_type-valid (doc primary), get_value_type-valid (doc "_id"))
            (decode_fields-lem none p i)
      decode_payload-lem (f ∷ g ∷ fs) e p i s =
          rw (e, many f g fs, get_value_type-valid (doc primary), get_value_type-valid (doc "_id"))
            (returns->>= _ fields_of (vals-lem (f ∷ g ∷ fs) s)
              ∙ decode_fields-lem (some (row_values doc (f ∷ g ∷ fs))) p i)

      payload-IsJson :
          (names : List String)
          → keys (non_id sort) ≡ names
          → IsStorable (doc primary)
          → IsStorable (doc "_id")
          → ((f : String) → includes names f ≡ true → IsStorable (doc f))
          → IsJson (object (payload_of rt doc primary sort version))
      unfolding payload_of compound_entries object fields
      payload-IsJson names e p i s =
          let (v, t) = cursor_vals-IsJson names s in
          let a = serialize_value-IsJson (doc primary) p in
          let b = serialize_value-IsJson (doc "_id") i in
          let c = sort_entries-IsJson sort in
          elim (Bool-cases (ltb 1 (length names))) [
            | inl m ↦ rw (e, m) (a, (tt, (b, (tt, (c, (tt, (v, (t, tt))))))))
            | inr m ↦ rw (e, m) (a, (tt, (b, (tt, (c, (tt, tt))))))
          ]

      -- The token of a row decodes to the row's own values, and carries the sort and the version it
      -- was made with: dates and ObjectIds come back as such, and every sort field's value is kept
      -- where there is more than one. The row holds scalars in the sort's fields.
      pub decode_cursor-encode_cursor :
          IsStorable (doc primary)
          → IsStorable (doc "_id")
          → ((f : String) → includes (keys (non_id sort)) f ≡ true → IsStorable (doc f))
          → decode_cursor rt (encode_cursor rt doc primary sort version)
            ≡ returns (decoded (keys (non_id sort)))
      unfolding decode_cursor encode_cursor or_throw
      decode_cursor-encode_cursor p i s =
          let payload = payload_of rt doc primary sort version in
          let names = keys (non_id sort) in
          rw
            (
              rt.from_base64-to_base64 (rt.stringify (object payload)),
              rt.parse-stringify (object payload) (payload-IsJson names refl p i s),
            )
            (returns->>= (or_throw rt malformed (as_entries (object payload))) (decode_payload rt)
                (object-lem payload)
              ∙ decode_payload-lem names refl p i s)
