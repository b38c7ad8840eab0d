-- ===== src/AwsRequest/Value.antt =====
-- internal/awsrequest/types.go: typed request parameters.
use kordn.Base.{ℕ, suc, Bytes, Bool, true, false, ltb, is_blank, Result, ok, err, ◌>>◌, fail_if}

-- A float64, as far as the source looks at it.
pub data Float : Type 0 where
  finite infinite nan : Float

-- `Value`, with the field that its kind selects; a Go map is the list of its entries, in the order
-- in which the range loop meets them.
mutual
  pub data Value : Type 0 where
    null : Value
    string : Bytes → Value
    boolean : Bool → Value
    integer : Value
    number : Float → Value
    object : Fields → Value
    array : Items → Value
    other_kind : Bytes → Value

  pub data Fields : Type 0 where
    end : Fields
    field : Bytes → Value → Fields → Fields

  pub data Items : Type 0 where
    nil : Items
    cons : Value → Items → Items

pub data ValueError : Type 0 where
  too_deep not_finite empty_key unsupported_kind : ValueError

abbrev pub max_depth : ℕ
max_depth = 64

abbrev pub is_finite : Float → Bool
is_finite finite = true
is_finite _ = false

-- `validate`, with the depth check that begins each call.
unfoldable mutual
  pub validate_at : Value → ℕ → Result ValueError (Unit {0})
  validate_at (number f) depth = do
    fail_if (ltb max_depth depth) too_deep
    elim (is_finite f) [ true ↦ ok tt | false ↦ err not_finite ]
  validate_at (object fs) depth = do
    fail_if (ltb max_depth depth) too_deep
    validate_fields fs depth
  validate_at (array vs) depth = do fail_if (ltb max_depth depth) too_deep; validate_items vs depth
  validate_at (other_kind k) depth = do fail_if (ltb max_depth depth) too_deep; err unsupported_kind
  validate_at _ depth = fail_if (ltb max_depth depth) too_deep

  pub validate_fields : Fields → ℕ → Result ValueError (Unit {0})
  validate_fields end depth = ok tt
  validate_fields (field key value fs) depth =
      let rest = validate_fields fs depth in
      let inner = validate_at value (suc depth) in do fail_if (is_blank key) empty_key; inner; rest

  pub validate_items : Items → ℕ → Result ValueError (Unit {0})
  validate_items nil depth = ok tt
  validate_items (cons value vs) depth =
      let rest = validate_items vs depth in
      let inner = validate_at value (suc depth) in do inner; rest

unfoldable pub validate_value : Value → Result ValueError (Unit {0})
validate_value v = validate_at v 0
