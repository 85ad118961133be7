-- ===== src/Mongo/Memory/Order.antt =====
-- The order of `$lt` and `$gt` on scalars of one type.
use Prim.Native.Char.{code}
use mongokit.Prelude.{String, Bool, true, false, not, ◌&&◌, ◌||◌, ltb, ◌==◌}
use mongokit.Js.Value.{Value, bool, num, str, oid, date, int_lt}

unfoldable pub text_lt : String → String → Bool
text_lt String.[] String.[] = false
text_lt String.[] (String.◌∷◌ d t) = true
text_lt (String.◌∷◌ c s) String.[] = false
text_lt (String.◌∷◌ c s) (String.◌∷◌ d t) =
    ltb (code c) (code d) || (code c == code d && text_lt s t)

unfoldable pub below : Value → Value → Bool
unfolding int_lt text_lt
below (bool a) (bool b) = not a && b
below (num a) (num b) = int_lt a b
below (str a) (str b) = text_lt a b
below (oid a) (oid b) = text_lt a b
below (date a) (date b) = ltb a b
below _ _ = false
