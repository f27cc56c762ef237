-- ===== src/Prelude/Json.antt =====
-- JSON values as the agent reads them: an object has each key once, and the accessors give none on another shape.
use Prim.Native.Nat.{ℕ}
use mathlib.Core.Bool.{Bool}
use mathlib.Core.List.{List, [], ◌∷◌}
use mathlib.Core.Option.{Option, none, some}
use wazabi_edr_agent.Prelude.Tests.{if◌then◌else◌}
use wazabi_edr_agent.Prelude.Bytes.{bytes_eq}

-- A number is a u64, or `negative n` for -1 - n, or another one.
mutual
  pub data Json : Type 0 where
    null : Json
    boolean : Bool → Json
    number : ℕ → Json
    negative : ℕ → Json
    fraction : Json
    text : List ℕ → Json
    array : Elements → Json
    object : Members → Json

  pub data Elements : Type 0 where
    no_element : Elements
    element : Json → Elements → Elements

  pub data Members : Type 0 where
    no_member : Members
    member : List ℕ → Json → Members → Members

unfoldable pub member_of : Members → List ℕ → Option Json
member_of no_member k = none
member_of (member j v ms) k = if bytes_eq j k then some v else member_of ms k

elements : Elements → List Json
elements no_element = []
elements (element j es) = j ∷ elements es

unfoldable pub get : Json → List ℕ → Option Json
unfolding member_of
get (object ms) k = member_of ms k
get _ k = none

unfoldable pub as_str : Option Json → Option (List ℕ)
as_str (some (text s)) = some s
as_str _ = none

unfoldable pub as_u64 : Option Json → Option ℕ
as_u64 (some (number n)) = some n
as_u64 _ = none

unfoldable pub as_array : Option Json → List Json
unfolding elements
as_array (some (array es)) = elements es
as_array _ = []

unfoldable pub as_bool : Option Json → Option Bool
as_bool (some (boolean b)) = some b
as_bool _ = none
