-- ===== src/Value.antt =====
-- The dynamic values of the program (`Any`, decoded JSON, metadata), and the ids of its schemas.
use test_bot.Base.{Bool, true, false, not, Option, none, some, List, [], ◌∷◌, if◌then◌else◌}
use test_bot.Base.{◌==◌, nat_eq, list_eq, int_eq, is_empty}
use test_bot.Base.Int.{ℤ, pos, leb_int}
use test_bot.Text.{Text, codes, strip, strip_by, is_space, show_int}

-- A double: `fin k` is the number k / 2^1074, of which every finite double is one.
pub data Float : Type 0 where
  nan pos_inf neg_inf : Float
  fin : ℤ → Float

mutual
  pub data Value : Type 0 where
    null : Value
    bool : Bool → Value
    int : ℤ → Value
    float : Float → Value
    str : Text → Value
    arr : Items → Value
    dict : Fields → Value

  pub data Items : Type 0 where
    nil : Items
    cons : Value → Items → Items

  pub data Fields : Type 0 where
    end : Fields
    field : Text → Value → Fields → Fields

-- `d.get(key)`, with `none` for a missing key; a decoded object has each key once.
unfoldable pub find_field : Text → Fields → Option Value
unfolding list_eq nat_eq
find_field key end = none
find_field key (field k v fs) = if k == key then some v else find_field key fs

-- `d.get(key, default)`
abbrev pub get_or : Text → Value → Fields → Value
get_or key default fs = elim (find_field key fs) [ none ↦ default | some v ↦ v ]

-- `d.get(key)`, with `None` for a missing key.
abbrev pub get : Text → Fields → Value
get key = get_or key null

-- What the interpreter computes and the program does not say: `str` of floats, lists and dicts,
-- `float` of a text, and `json.loads`.
pub record Runtime : Type 0 where
  pub repr : Value → Text
  pub float_of : Text → Option Float
  pub loads : Text → Option Value

-- `str(value)`
unfoldable pub str_of : Runtime → Value → Text
unfolding show_int
str_of rt null = codes "None"
str_of rt (bool true) = codes "True"
str_of rt (bool false) = codes "False"
str_of rt (int n) = show_int n
str_of rt (str s) = s
str_of rt v = rt.repr v

-- `a < b` for doubles.
unfoldable pub ltb_float : Float → Float → Bool
ltb_float nan b = false
ltb_float a nan = false
ltb_float pos_inf b = false
ltb_float a neg_inf = false
ltb_float neg_inf b = true
ltb_float a pos_inf = true
ltb_float (fin m) (fin n) = not (leb_int n m)

unfoldable pub items : Items → List Value
items nil = []
items (cons v vs) = v ∷ items vs

-- `str | int | None`
pub data Ident : Type 0 where
  text_id : Text → Ident
  int_id : ℤ → Ident

-- `str(value).strip()`, and the empty text for `None`: `_string_id`.
unfoldable pub string_id : Option Ident → Text
unfolding strip_by is_space show_int
string_id none = []
string_id (some (text_id s)) = strip s
string_id (some (int_id n)) = strip (show_int n)

-- The truth value of an id: neither `None`, nor empty, nor zero.
unfoldable pub truthy_id : Option Ident → Bool
unfolding int_eq nat_eq
truthy_id none = false
truthy_id (some (text_id s)) = not (is_empty s)
truthy_id (some (int_id n)) = not (n == pos 0)

-- `a or b` for texts.
abbrev pub or_text : Text → Text → Text
or_text a b = if is_empty a then b else a

-- `a or ""` for an optional text.
abbrev pub text_or_empty : Option Text → Text
text_or_empty none = []
text_or_empty (some s) = s
