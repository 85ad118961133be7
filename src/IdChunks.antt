-- ===== src/IdChunks.antt =====
-- src/utils/id-chunks.ts: slices of a list of ids, and the filters of chunk-by-chunk writes. A
-- size is a natural number here, so the test that it is an integer is always passed.
pub mod Laws
use mongokit.Prelude.{
  ℕ, suc, zero, ◌≡◌, String, true, false, Bool, List, [], ◌∷◌, take, drop, length, ltb,
  if◌then◌else◌, Outcome, returns, throws, throw_if, ◌>>◌,
}
use mongokit.Js.Object.{Object, spread}
use mongokit.Js.Value.{Value, arr, values, undefined, null}
use mongokit.Mongo.{Matching, operator}
use mongokit.Mongo.Rows.{Rows}

pub data IdChunksError : Type 0 where
  not_positive : ℕ → IdChunksError

abbrev pub default_id_chunk : ℕ
default_id_chunk = 10000

module _ {ℓ} {A : Type ℓ} where
  -- `for (let i = 0; i < ids.length; i += size) yield ids.slice(i, i + size)`, where `rest` are the
  -- ids from the index `i` on; the fuel is the number of turns.
  unfoldable pub slices : ℕ → ℕ → List A → List (List A)
  slices zero size rest = []
  slices (suc fuel) size [] = []
  slices (suc fuel) size (x ∷ rest) = take size (x ∷ rest) ∷ slices fuel size (drop size (x ∷ rest))

  unfoldable pub id_chunks : List A → ℕ → Outcome IdChunksError (List (List A))
  unfolding slices
  id_chunks ids size =
      throw_if (ltb size 1) (not_positive size) >> returns (slices (length ids) size ids)

-- `v == null`
unfoldable pub is_nullish : Value → Bool
is_nullish undefined = true
is_nullish null = true
is_nullish v = false

unfoldable pub keyset_filter : Object Value → Value → Object Value
unfolding is_nullish spread
keyset_filter base_filter cursor =
    if is_nullish cursor
    then base_filter
    else spread base_filter (("_id", operator "$gt" cursor) ∷ [])

unfoldable pub narrow_to_ids : Object Value → List Value → Object Value
unfolding spread
narrow_to_ids base_filter ids = spread base_filter (("_id", operator "$in" (arr (values ids))) ∷ [])

module _ {D : Type 0} {m : Matching D} (repo : Rows m) where
  -- The projection only makes the rows smaller.
  unfoldable pub select_keyset_chunk : Object Value → ℕ → repo.State → List D
  select_keyset_chunk filter limit s = repo.find filter limit s
