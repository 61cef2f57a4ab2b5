-- ===== src/Robomp/Json.antt =====
-- The JSON value of a webhook payload, as src/robomp/github_events.py reads it.
use oh_my_robot.Prelude.{
  suc, Text, codes, text_eq, Bool, true, false, not, Option, none, some, [], ◌∷◌, ◌==◌,
  if◌then◌else◌, decimal, contains, ◌||◌,
}
use oh_my_robot.Prelude.Int.{ℤ, pos, negsuc}

-- A number that is not an integer is given by whether it is true, and by its text.
mutual
  pub data Json : Type 0 where
    null : Json
    boolean : Bool → Json
    integer : ℤ → Json
    float : Bool → Text → Json
    text : Text → Json
    array : Items → Json
    object : Members → Json

  pub data Items : Type 0 where
    no_item : Items
    item : Json → Items → Items

  pub data Members : Type 0 where
    no_member : Members
    member : Text → Json → Members → Members

-- `d.get(key)`
unfoldable pub get : Text → Members → Json
get key no_member = null
get key (member k value rest) = let later = get key rest in if text_eq k key then value else later

-- `key in d`
unfoldable pub has_member : Text → Members → Bool
has_member key no_member = false
has_member key (member k value rest) = text_eq k key || has_member key rest

abbrev pub truthy : Json → Bool
truthy null = false
truthy (boolean b) = b
truthy (integer (pos n)) = not (n == 0)
truthy (integer (negsuc n)) = true
truthy (float nonzero s) = nonzero
truthy (text []) = false
truthy (text (c ∷ s)) = true
truthy (array no_item) = false
truthy (array (item x xs)) = true
truthy (object no_member) = false
truthy (object (member k x rest)) = true

-- `isinstance(value, int)`, which a `bool` is too.
abbrev pub is_int : Json → Bool
is_int (integer n) = true
is_int (boolean b) = true
is_int _ = false

-- The integer, or the `bool`, in an f-string.
abbrev pub int_text : Json → Text
int_text (integer (pos n)) = decimal n
int_text (integer (negsuc n)) = b'-' ∷ decimal (suc n)
int_text (boolean true) = codes "True"
int_text (boolean false) = codes "False"
int_text _ = []

-- A value that is a text and not empty.
abbrev pub as_text : Json → Option Text
as_text (text []) = none
as_text (text (c ∷ s)) = some (c ∷ s)
as_text _ = none

-- `isinstance(value, Mapping)`
abbrev pub as_object : Json → Option Members
as_object (object m) = some m
as_object _ = none

-- `value or {}`, where a value that has no `get` gives `none`.
abbrev pub object_or_empty : Json → Option Members
object_or_empty value = if truthy value then as_object value else some no_member

-- `key in (value or {})`; `none` is the TypeError of a value that has no `in`.
abbrev pub in_items : Text → Items → Bool
in_items key no_item = false
in_items key (item (text s) rest) = text_eq s key || in_items key rest
in_items key (item _ rest) = in_items key rest

abbrev pub in_value : Text → Json → Option Bool
in_value key (text s) = some (contains key s)
in_value key (array items) = some (in_items key items)
in_value key (object m) = some (has_member key m)
in_value key _ = none

abbrev pub in_or_empty : Text → Json → Option Bool
in_or_empty key value = if truthy value then in_value key value else some false

-- `str(value or "")`, with `str` of a value that is not a text as a parameter.
abbrev pub str_of : (Json → Text) → Json → Text
str_of py_str (text s) = s
str_of py_str value = py_str value

abbrev pub str_or_empty : (Json → Text) → Json → Text
str_or_empty py_str value = if truthy value then str_of py_str value else []
