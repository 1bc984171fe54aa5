-- ===== src/Metadata/Schema/Descriptor.antt =====
-- schema_descriptor.go: schema descriptors, as values that json.Unmarshal makes of the text, and the
-- columns that they give. `nullable` and `length`, which nothing reads, are left out.
pub mod Forms
pub mod Columns
use fluss_go_client.Prelude.{
  ℕ, ◌+◌, ◌==◌, Bool, true, false, ◌||◌, Option, none, some, if◌then◌else◌, List, [], ◌∷◌, length,
}
use fluss_go_client.Prelude.Int.{ℤ, pos}
use fluss_go_client.Result.{Result, ok, err, panic, ◌>>=◌, ◌>>◌, reject, map_error}
use fluss_go_client.Bytes.{Bytes}
use fluss_go_client.Bytes.Equal.{bytes_eq}
use fluss_go_client.Text.{codes, to_upper, trim_space}
use fluss_go_client.Row.Types.{FieldType, FieldPtr, Fields}
use fluss_go_client.Metadata.Schema.Parser.{Error, Keyword, parse_field_type}

-- `*dataTypeJSON`, and `[]nestedFieldJSON`.
mutual
  pub data DataType : Type 0 where
    missing : DataType
    data_type :
        (type_name : Bytes) (precision scale : Option ℤ) (element key item : DataType)
        (fields : NestedFields)
        → DataType

  pub data NestedFields : Type 0 where
    end : NestedFields
    nested :
        (name type_text : Bytes) (data_type field_type : DataType) → NestedFields → NestedFields

pub record SchemaColumn : Type 0 where
  pub name : Bytes
  pub field_type : FieldType

pub record ColumnJson : Type 0 where
  pub name : Bytes
  pub type_text : Bytes
  pub data_type : DataType
  pub field_type : DataType

unfoldable pub value_or_default : Option ℤ → ℤ → ℤ
value_or_default none fallback = fallback
value_or_default (some n) fallback = n

abbrev pub is_missing : DataType → Bool
is_missing DataType.missing = true
is_missing (DataType.data_type t p s e k v fs) = false

-- The cases of the `switch` in `toFieldType`.
unfoldable pub type_keyword : Bytes → Keyword
type_keyword name =
    let is : Bytes → Bool = λ k. bytes_eq name k in
    if is (codes "BOOLEAN")
    then Keyword.plain FieldType.bool
    else if is (codes "TINYINT")
    then Keyword.plain FieldType.int8
    else if is (codes "SMALLINT")
    then Keyword.plain FieldType.int16
    else if is (codes "INT") || is (codes "INTEGER")
    then Keyword.plain FieldType.int32
    else if is (codes "BIGINT")
    then Keyword.plain FieldType.int64
    else if is (codes "FLOAT")
    then Keyword.plain FieldType.float32
    else if is (codes "DOUBLE")
    then Keyword.plain FieldType.float64
    else if is (codes "STRING") || (is (codes "VARCHAR") || is (codes "CHAR"))
    then Keyword.plain FieldType.string
    else if is (codes "BYTES") || (is (codes "BINARY") || is (codes "VARBINARY"))
    then Keyword.plain FieldType.bytes
    else if is (codes "DECIMAL")
    then Keyword.decimal
    else if is (codes "DATE")
    then Keyword.plain FieldType.date
    else if is (codes "TIME") || is (codes "TIME_WITHOUT_TIME_ZONE")
    then Keyword.plain FieldType.time
    else if is (codes "TIMESTAMP") || is (codes "TIMESTAMP_WITHOUT_TIME_ZONE")
    then Keyword.timestamp
    else if is (codes "TIMESTAMP_LTZ") || is (codes "TIMESTAMP_WITH_LOCAL_TIME_ZONE")
    then Keyword.timestamp_ltz
    else if is (codes "ARRAY")
    then Keyword.array
    else if is (codes "MAP")
    then Keyword.map
    else if is (codes "ROW")
    then Keyword.row
    else Keyword.other

-- The bodies of the cases, over the results of the types inside; no case is `sized`.
abbrev pub build :
    (kind : Keyword) (precision scale : Option ℤ) (no_element no_key_or_item : Bool)
    (element key item : Result Error FieldType) (fields : Result Error Fields)
    → Result Error FieldType
build (Keyword.plain f) precision scale no_element no_pair element key item fields = ok f
build (Keyword.sized f) precision scale no_element no_pair element key item fields = ok f
build Keyword.decimal precision scale no_element no_pair element key item fields =
    ok (FieldType.decimal (value_or_default precision (pos 0)) (value_or_default scale (pos 0)))
build Keyword.timestamp precision scale no_element no_pair element key item fields =
    ok (FieldType.timestamp_ntz (value_or_default precision (pos 6)))
build Keyword.timestamp_ltz precision scale no_element no_pair element key item fields =
    ok (FieldType.timestamp_ltz (value_or_default precision (pos 6)))
build Keyword.array precision scale no_element no_pair element key item fields = do
  reject no_element Error.missing_element
  e ← element
  ok (FieldType.array (FieldPtr.ptr e))
build Keyword.map precision scale no_element no_pair element key item fields = do
  reject no_pair Error.missing_key_value
  k ← key
  v ← item
  ok (FieldType.map (FieldPtr.ptr k) (FieldPtr.ptr v))
build Keyword.row precision scale no_element no_pair element key item fields = do
  fs ← fields
  ok (FieldType.row fs)
build Keyword.other precision scale no_element no_pair element key item fields =
    err Error.unsupported

-- What both `fieldType` methods do with a type that is given as text only.
unfoldable pub text_field_type : Bytes → Result Error FieldType
text_field_type text =
    if length (trim_space text) == 0 then err Error.unsupported else parse_field_type text

-- One of two descriptors that are nil or not, or else the text.
abbrev pub first_given :
    (first second : DataType) (one other text : Result Error FieldType) → Result Error FieldType
first_given DataType.missing DataType.missing one other text = text
first_given DataType.missing (DataType.data_type t p s e k v fs) one other text = other
first_given (DataType.data_type t p s e k v fs) second one other text = one

unfoldable mutual
  -- `toFieldType`
  pub to_field_type : DataType → Result Error FieldType
  to_field_type DataType.missing = err Error.missing_data_type
  to_field_type (DataType.data_type name precision scale element key item fields) =
      build (type_keyword (to_upper (trim_space name))) precision scale (is_missing element)
        (is_missing key || is_missing item) (to_field_type element) (to_field_type key)
        (to_field_type item) (nested_fields 0 fields)

  -- The loop over the fields of a ROW, with the `fieldType` of a nested field.
  pub nested_fields : ℕ → NestedFields → Result Error Fields
  nested_fields i NestedFields.end = ok Fields.end
  nested_fields i (NestedFields.nested name text given field rest) = do
    f ←
        map_error (Error.at_row_field i name) (
          first_given field given (to_field_type field) (to_field_type given)
            (text_field_type text))
    fs ← nested_fields (i + 1) rest
    ok (Fields.field f fs)

-- `fieldType` of a column: the two descriptors in the other order.
unfoldable pub column_field_type : ColumnJson → Result Error FieldType
column_field_type c =
    first_given c.data_type c.field_type (to_field_type c.data_type) (to_field_type c.field_type)
      (text_field_type c.type_text)

unfoldable pub label : DataType → Bytes
label DataType.missing = []
label (DataType.data_type name p s e k v fs) = name

abbrev label_of : DataType → DataType → Bytes
label_of DataType.missing second = label second
label_of first second = label first

unfoldable pub type_label : ColumnJson → Bytes
type_label c =
    if length (trim_space c.type_text) == 0 then label_of c.data_type c.field_type else c.type_text

-- The loop of `ParseSchemaColumns`.
unfoldable pub schema_columns : List ColumnJson → Result Error (List SchemaColumn)
schema_columns [] = ok []
schema_columns (c ∷ cs) = do
  f ← map_error (Error.at_column c.name (type_label c)) (column_field_type c)
  rest ← schema_columns cs
  ok (record { name = c.name; field_type = f } ∷ rest)

-- The loop of `ParseSchema`: two slices of one length.
unfoldable pub column_types : List SchemaColumn → Fields
column_types [] = Fields.end
column_types (c ∷ cs) = Fields.field c.field_type (column_types cs)

unfoldable pub column_names : List SchemaColumn → List Bytes
column_names [] = []
column_names (c ∷ cs) = c.name ∷ column_names cs

-- json.Unmarshal of a text: the columns of the descriptor, or an error.
module _ (unmarshal : Bytes → Option (List ColumnJson)) where
  unfoldable pub parse_schema_columns : Bytes → Result Error (List SchemaColumn)
  parse_schema_columns text = elim (unmarshal text) [
    | none ↦ err Error.bad_json
    | some columns ↦ schema_columns columns
  ]

  unfoldable pub parse_schema : Bytes → Result Error (Fields × List Bytes)
  parse_schema text = do
    columns ← parse_schema_columns text
    ok (column_types columns, column_names columns)
