-- ===== src/Logger/Value.antt =====
-- The values that a log record's `payload` and `businessData` hold.
use Prim.Native.Char.{code}
use demo_hybrid_microservice.Common.{ℕ, suc, max, String, List, [], ◌∷◌, str_eq, if◌then◌else◌}

-- The code points of a text: its UTF-16 units, where all are below 0x10000.
abbrev pub codes : String → List ℕ
codes String.[] = []
codes (String.◌∷◌ c s) = code c ∷ codes s

-- `opaque` is an instance of one of the classes that the logger does not look into; `scalar` is any
-- other value that is neither a string nor an object.
mutual
  pub data Value : Type 0 where
    undefined null : Value
    scalar : ℕ → Value
    text : List ℕ → Value
    opaque : ℕ → Value
    array : Items → Value
    object : Fields → Value

  pub data Items : Type 0 where
    nil : Items
    cons : Value → Items → Items

  pub data Fields : Type 0 where
    end : Fields
    field : String → Value → Fields → Fields

abbrev pub item_count : Items → ℕ
item_count nil = 0
item_count (cons v vs) = suc (item_count vs)

abbrev pub field_count : Fields → ℕ
field_count end = 0
field_count (field k v fs) = suc (field_count fs)

-- How deep arrays and objects are nested.
unfoldable mutual
  pub height : Value → ℕ
  height undefined = 0
  height null = 0
  height (scalar n) = 0
  height (text s) = 0
  height (opaque n) = 0
  height (array vs) = suc (height_items vs)
  height (object fs) = suc (height_fields fs)

  pub height_items : Items → ℕ
  height_items nil = 0
  height_items (cons v vs) = max (height v) (height_items vs)

  pub height_fields : Fields → ℕ
  height_fields end = 0
  height_fields (field k v fs) = max (height v) (height_fields fs)

-- `[...items, v]`.
unfoldable pub push_item : Items → Value → Items
push_item nil v = cons v nil
push_item (cons w vs) v = cons w (push_item vs v)

-- `object[key] = v`: in its place if the key is there, else at the end.
unfoldable pub set_field : String → Value → Fields → Fields
set_field key v end = field key v end
set_field key v (field k w fs) =
    if str_eq k key then field k v fs else field k w (set_field key v fs)
