-- ===== src/Llm/Json.antt =====
-- llm/rpc_messages.py: JSON values as Python holds them, and `_same_json`. A float is a parameter:
-- the program only asks whether it is finite and not negative, and compares it. A dictionary is its
-- list of pairs, whose keys `_pairs` of llm/rpc_frames.py keeps distinct. Texts are sequences of
-- Unicode characters: lone surrogates, which no encoding accepts, are not texts here.
use paper_radar.Prelude.{
  Bool, List, Option, String, [], all, any, bool_eq, false, if◌then◌else◌, is_some, none, not, some,
  str_eq, true, ℕ, ◌&&◌, ◌∷◌,
}
use paper_radar.Prelude.Text.{is_empty}
use paper_radar.Prelude.Int.{eqb_ℤ, pos, ℤ}

mutual
  pub data Json (F : Type 0) : Type 0 where
    null : Json F
    boolean : Bool → Json F
    integer : ℤ → Json F
    floating : F → Json F
    text : String → Json F
    array : Items F → Json F
    object : Fields F → Json F

  pub data Items (F : Type 0) : Type 0 where
    nil : Items F
    cons : Json F → Items F → Items F

  pub data Fields (F : Type 0) : Type 0 where
    end : Fields F
    field : String → Json F → Fields F → Fields F

-- What the program asks of a float.
pub record FloatOps (F : Type 0) : Type 0 where
  pub float_eq : F → F → Bool
  pub is_finite : F → Bool
  pub is_nonnegative : F → Bool

-- `left.keys() == right.keys()`
unfoldable pub same_keys : List String → List String → Bool
same_keys left right = all (λ k. any (str_eq k) right) left && all (λ k. any (str_eq k) left) right

module _ {F : Type 0} where
  -- `record.get(name)`
  unfoldable pub get : String → Fields F → Option (Json F)
  get name end = none
  get name (field key value rest) =
      let later = get name rest in if str_eq key name then some value else later

  -- `name in record`
  abbrev pub has : String → Fields F → Bool
  has name record_fields = is_some (get name record_fields)

  unfoldable pub keys : Fields F → List String
  keys end = []
  keys (field key value rest) = key ∷ keys rest

  abbrev pub object_of : Option (Json F) → Option (Fields F)
  object_of (some (object fields)) = some fields
  object_of _ = none

  abbrev pub array_of : Option (Json F) → Option (Items F)
  array_of (some (array items)) = some items
  array_of _ = none

  abbrev pub text_of : Option (Json F) → Option String
  text_of (some (text s)) = some s
  text_of _ = none

  abbrev pub is_boolean : Option (Json F) → Bool
  is_boolean (some (boolean b)) = true
  is_boolean _ = false

  -- `value is False`
  abbrev pub is_false : Option (Json F) → Bool
  is_false (some (boolean b)) = not b
  is_false _ = false

  -- `type(value) is int and value >= 0`, with the number.
  abbrev pub count_of : Option (Json F) → Option ℕ
  count_of (some (integer (pos n))) = some n
  count_of _ = none

  -- `value == s`, for a text `s`.
  abbrev pub text_is : Option (Json F) → String → Bool
  text_is (some (text t)) s = str_eq t s
  text_is _ s = false

  -- `_string(value)`
  abbrev pub is_string : Option (Json F) → Bool
  is_string (some (text s)) = not (is_empty s)
  is_string _ = false

module _ {F : Type 0} (ops : FloatOps F) where
  -- `_number(value)`
  abbrev pub is_number : Option (Json F) → Bool
  is_number (some (integer (pos n))) = true
  is_number (some (floating x)) = ops.is_finite x && ops.is_nonnegative x
  is_number _ = false

  unfoldable mutual
    unfolding get

    pub same_json : Json F → Json F → Bool
    same_json null null = true
    same_json (boolean a) (boolean b) = bool_eq a b
    same_json (integer a) (integer b) = eqb_ℤ a b
    same_json (floating a) (floating b) = ops.float_eq a b
    same_json (text a) (text b) = str_eq a b
    same_json (array a) (array b) = same_items a b
    same_json (object a) (object b) = same_keys (keys a) (keys b) && same_fields a b
    same_json _ _ = false

    pub same_items : Items F → Items F → Bool
    same_items nil nil = true
    same_items (cons a as') (cons b bs) = same_json a b && same_items as' bs
    same_items _ _ = false

    -- `all(_same_json(value, right[key]) for key, value in left.items())`
    pub same_fields : Fields F → Fields F → Bool
    same_fields end right = true
    same_fields (field key value rest) right =
        elim (get key right) [ none ↦ false | some other ↦ same_json value other ]
        && same_fields rest right
