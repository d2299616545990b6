-- ===== src/Common/Json.antt =====
-- The values of JSON, as `JSON.parse` makes them: an object has its own keys in order, each once.
use Prim.Native.Nat.{ℕ}
use mathlib.Core.Bool.{Bool, false, ◌&&◌, ◌||◌}
use mathlib.Core.List.{List, [], ◌∷◌}
use mathlib.Core.Option.{Option, none, some}
use midnight_private_negotia.Common.Tests.{if◌then◌else◌, ◌==◌}
use midnight_private_negotia.Common.Texts.{Text, text_eq}
use midnight_private_negotia.Common.Lists.{length, all}

-- `integer` is a number that is a safe integer and not negative, `real` any other number.
mutual
  pub data Value : Type 0 where
    null real : Value
    boolean : Bool → Value
    integer : ℕ → Value
    string : Text → Value
    array : Values → Value
    object : Fields → Value

  pub data Values : Type 0 where
    no_items : Values
    item : Value → Values → Values

  pub data Fields : Type 0 where
    no_fields : Fields
    field : Text → Value → Fields → Fields

-- A property of an object, `none` where it is undefined.
unfoldable pub lookup : Fields → Text → Option Value
lookup no_fields key = none
lookup (field k v rest) key = if text_eq k key then some v else lookup rest key

unfoldable pub keys : Fields → List Text
keys no_fields = []
keys (field k v rest) = k ∷ keys rest

abbrev pub includes : List Text → Text → Bool
includes [] key = false
includes (k ∷ rest) key = text_eq k key || includes rest key

-- `hasExactKeys`: as many keys as are expected, and each is expected.
unfoldable pub has_exact_keys : Fields → List Text → Bool
unfolding keys
has_exact_keys value expected =
    (length (keys value) == length expected) && all (includes expected) (keys value)

-- A property that is a string.
abbrev pub as_text : Option Value → Option Text
as_text (some (string s)) = some s
as_text _ = none

abbrev pub as_integer : Option Value → Option ℕ
as_integer (some (integer n)) = some n
as_integer _ = none
