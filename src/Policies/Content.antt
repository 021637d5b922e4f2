-- ===== src/Policies/Content.antt =====
-- Policy contents as parsed JSON, and the operations of JavaScript that the validator uses on them.
use Prim.Native.Char.{code}
use Prim.Native.String.{[], ◌∷◌}
use loopstorm_guard.Common.Texts.{is_space}
use loopstorm_guard.Common.{ℕ, String, Bool, true, false, ◌&&◌, not, ◌==◌, str_eq, if◌then◌else◌}

-- A number of JSON as a signed fraction; an overflow to an infinity has the denominator 0.
pub record Number : Type 0 where
  pub negative : Bool
  pub numerator : ℕ
  pub denominator : ℕ

mutual
  pub data Value : Type 0 where
    undefined : Value
    null : Value
    boolean : Bool → Value
    number : Number → Value
    text : String → Value
    array : Values → Value
    object : Members → Value

  pub data Values : Type 0 where
    nil : Values
    cons : Value → Values → Values

  pub data Members : Type 0 where
    end : Members
    member : String → Value → Members → Members

abbrev pub find_member : String → Members → Value
find_member k end = undefined
find_member k (member j v ms) = if str_eq j k then v else find_member k ms

-- `value[k]` for a key that no prototype has; `null` and `undefined` throw and are tested before.
abbrev pub get_member : String → Value → Value
get_member k (object ms) = find_member k ms
get_member k undefined = undefined
get_member k null = undefined
get_member k (boolean b) = undefined
get_member k (number n) = undefined
get_member k (text s) = undefined
get_member k (array vs) = undefined

-- `value !== undefined`.
abbrev pub is_defined : Value → Bool
is_defined undefined = false
is_defined v = true

-- `typeof value === "object" && value !== null`.
abbrev pub is_object : Value → Bool
is_object (array vs) = true
is_object (object ms) = true
is_object v = false

-- `value === 1`.
abbrev pub is_one : Value → Bool
is_one (number n) = not n.negative && (not (n.denominator == 0) && n.numerator == n.denominator)
is_one v = false

-- `typeof value === "number" && !(value <= 0)`.
abbrev pub is_positive : Value → Bool
is_positive (number n) = not n.negative && not (n.numerator == 0)
is_positive v = false

-- `value === s`.
abbrev pub is_text : String → Value → Bool
is_text s (text t) = str_eq t s
is_text s v = false

-- `s.trim() === ""`.
abbrev pub is_blank : String → Bool
is_blank [] = true
is_blank (c ∷ s) = is_space (code c) && is_blank s

-- `typeof value === "string" && value.trim() !== ""`.
abbrev pub is_name : Value → Bool
is_name (text s) = not (is_blank s)
is_name v = false

-- `!!value`.
abbrev pub is_truthy : Value → Bool
is_truthy undefined = false
is_truthy null = false
is_truthy (boolean b) = b
is_truthy (number n) = not (n.numerator == 0)
is_truthy (text s) = not (str_eq s "")
is_truthy (array vs) = true
is_truthy (object ms) = true
