-- ===== src/FilterIr.antt =====
-- src/filter/compile.ts: the portable filters of @classytic/repo-core, compiled to MongoDB queries.
-- `coerceFilterDates` is that package's: a parameter, which gets the schema's date fields.
pub mod Like
pub mod Meaning
pub mod Compiled
pub mod Shorthand
mod Tests
use mongokit.Prelude.{
  String, Bool, true, false, List, [], ◌∷◌, str_eq, if◌then◌else◌, Outcome, returns, throws, ◌>>=◌,
  Option, none, some,
}
use mongokit.Js.Object.{Object}
use mongokit.Js.Value.{
  Value, undefined, null, bool, num, str, oid, date, arr, obj, Fields, fields, entries, object,
  objects, values,
}
use mongokit.Mongo.{operator}
use mongokit.Pagination.Cursor.{is_null}
use Like.{like_to_regex}
use Shorthand.{expand_shorthands}

mutual
  pub data Filter : Type 0 where
    true_ false_ raw : Filter
    eq ne gt gte lt lte : String → Value → Filter
    in_ nin : String → List Value → Filter
    exists : String → Bool → Filter
    -- The pattern, and whether case matters.
    like : String → String → Bool → Filter
    -- The pattern and the flags.
    regex : String → String → String → Filter
    and_ or_ : Filters → Filter
    not_ : Filter → Filter

  pub data Filters : Type 0 where
    no_children : Filters
    child : Filter → Filters → Filters

pub data FilterError : Type 0 where
  raw_is_sql : FilterError

-- `{ $expr: false }`
abbrev pub nothing : Object Value
nothing = ("$expr", bool false) ∷ []

unfoldable pub regex_of : String → String → Value
regex_of pattern flags =
    if str_eq flags ""
    then operator "$regex" (str pattern)
    else object (("$regex", str pattern) ∷ ("$options", str flags) ∷ [])

unfoldable pub ne_of : String → Value → Object Value
unfolding is_null
ne_of field v =
    if is_null v
    then (field, operator "$ne" null) ∷ []
    else (
      "$and",
      arr (objects (((field, operator "$ne" v) ∷ []) ∷ ((field, operator "$ne" null) ∷ []) ∷ [])),
    )
      ∷ []

-- One part is the whole; more are the operands of `$and` or `$or`.
unfoldable pub joined : String → List (Object Value) → Object Value
joined op (p ∷ []) = p
joined op ps = (op, arr (objects ps)) ∷ []

unfoldable pub in_of : String → List Value → Object Value
in_of field [] = nothing
in_of field (v ∷ vs) = (field, operator "$in" (arr (values (v ∷ vs)))) ∷ []

unfoldable pub nin_of : String → List Value → Object Value
nin_of field [] = []
nin_of field (v ∷ vs) = (field, operator "$nin" (arr (values (v ∷ vs)))) ∷ []

unfoldable pub exists_of : String → Bool → Object Value
exists_of field true = (field, operator "$ne" null) ∷ []
exists_of field false = (field, null) ∷ []

unfoldable mutual
  unfolding like_to_regex regex_of ne_of joined in_of nin_of exists_of

  pub compile : Filter → Outcome FilterError (Object Value)
  compile true_ = returns []
  compile false_ = returns nothing
  compile (eq field v) = returns ((field, v) ∷ [])
  compile (ne field v) = returns (ne_of field v)
  compile (gt field v) = returns ((field, operator "$gt" v) ∷ [])
  compile (gte field v) = returns ((field, operator "$gte" v) ∷ [])
  compile (lt field v) = returns ((field, operator "$lt" v) ∷ [])
  compile (lte field v) = returns ((field, operator "$lte" v) ∷ [])
  compile (in_ field vs) = returns (in_of field vs)
  compile (nin field vs) = returns (nin_of field vs)
  compile (exists field b) = returns (exists_of field b)
  compile (like field pattern sensitive) =
      returns ((field, regex_of (like_to_regex pattern) (if sensitive then "" else "i")) ∷ [])
  compile (regex field pattern flags) = returns ((field, regex_of pattern flags) ∷ [])
  compile (and_ no_children) = returns []
  compile (and_ (child f fs)) = compile_all (child f fs) >>= λ parts. returns (joined "$and" parts)
  compile (or_ no_children) = returns nothing
  compile (or_ (child f fs)) = compile_all (child f fs) >>= λ parts. returns (joined "$or" parts)
  compile (not_ f) = compile f >>= λ q. returns (("$nor", arr (objects (q ∷ []))) ∷ [])
  compile raw = throws raw_is_sql

  pub compile_all : Filters → Outcome FilterError (List (Object Value))
  compile_all no_children = returns []
  compile_all (child f fs) = compile f >>= λ q. compile_all fs >>= λ qs. returns (q ∷ qs)

-- What a caller passes: nothing, a filter, or a query that is MongoDB's already.
pub data Input : Type 0 where
  absent : Input
  ir : Filter → Input
  query : Fields → Input

unfoldable pub compile_filter_to_mongo :
    (Object Value → Object Value) → Input → Outcome FilterError (Object Value)
unfolding compile expand_shorthands
compile_filter_to_mongo coerce_filter_dates absent = returns []
compile_filter_to_mongo coerce_filter_dates (query q) =
    returns (coerce_filter_dates (entries (expand_shorthands q)))
compile_filter_to_mongo coerce_filter_dates (ir f) = compile f
