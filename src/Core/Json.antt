-- ===== src/Core/Json.antt =====
-- The `JsonValue` of src/distributed_runtime/core/envelope.py. A float is kept by its `repr`.
use ptf.Prelude.{ℕ, String, Bool, true, not, ◌&&◌, ◌||◌, Option, none, some, if◌then◌else◌, ◌==◌}

-- `negsuc n` is -(n + 1).
pub data ℤ : Type 0 where
  pos : ℕ → ℤ
  negsuc : ℕ → ℤ

mutual
  pub data JsonValue : Type 0 where
    null : JsonValue
    boolean : Bool → JsonValue
    integer : ℤ → JsonValue
    real : String → JsonValue
    text : String → JsonValue
    array : JsonItems → JsonValue
    object : JsonFields → JsonValue

  pub data JsonItems : Type 0 where
    nil : JsonItems
    cons : JsonValue → JsonItems → JsonItems

  pub data JsonFields : Type 0 where
    end : JsonFields
    field : String → JsonValue → JsonFields → JsonFields

-- Every float is finite: the test of `_freeze`, and of `json.dumps` with `allow_nan=False`.
unfoldable mutual
  pub is_finite : JsonValue → Bool
  is_finite JsonValue.null = true
  is_finite (JsonValue.boolean b) = true
  is_finite (JsonValue.integer n) = true
  is_finite (JsonValue.real t) = not (t == "inf" || (t == "-inf" || t == "nan"))
  is_finite (JsonValue.text t) = true
  is_finite (JsonValue.array items) = finite_items items
  is_finite (JsonValue.object fields) = finite_fields fields

  pub finite_items : JsonItems → Bool
  finite_items JsonItems.nil = true
  finite_items (JsonItems.cons v items) = is_finite v && finite_items items

  pub finite_fields : JsonFields → Bool
  finite_fields JsonFields.end = true
  finite_fields (JsonFields.field k v fields) = is_finite v && finite_fields fields

-- `.get(key)` of a mapping
unfoldable pub get_field : String → JsonFields → Option JsonValue
get_field k JsonFields.end = none
get_field k (JsonFields.field j v rest) = if j == k then some v else get_field k rest
