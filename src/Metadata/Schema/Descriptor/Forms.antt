-- ===== src/Metadata/Schema/Descriptor/Forms.antt =====
-- schema_descriptor.go: one column written as a text and as a nested descriptor.
use fluss_go_client.Prelude.{
  ℕ, ◌+◌, ◌≡◌, refl, ◌∙◌, none, some, false, List, [], ◌∷◌, map, length, ◌==◌, All, arith,
}
use fluss_go_client.Prelude.Int.{ℤ}
use fluss_go_client.Result.{Result, ok, err}
use fluss_go_client.Bytes.{Bytes}
use fluss_go_client.Bytes.Equal.{bytes_eq}
use fluss_go_client.Text.{codes, to_upper, trim_space, trim_left, trim_right, ascii_space}
use fluss_go_client.Row.Types.{FieldType, FieldPtr, Fields}
use fluss_go_client.Metadata.Schema.Parser.{Error}
use fluss_go_client.Metadata.Schema.Printer.{print_type, IsPrintable, ArePrintable}
use fluss_go_client.Metadata.Schema.Printer.Trim.{trim_space-print_type}
use fluss_go_client.Metadata.Schema.Printer.RoundTrip.{parse_field_type-print_type}
use fluss_go_client.Metadata.Schema.Descriptor.{
  DataType, NestedFields, SchemaColumn, ColumnJson, value_or_default, type_keyword, text_field_type,
  to_field_type, nested_fields, first_given, is_missing, column_field_type, schema_columns,
}

-- A descriptor that has no more than its name.
abbrev pub named : Bytes → DataType
named name =
    DataType.data_type name none none DataType.missing DataType.missing DataType.missing
      NestedFields.end

abbrev pub with_precision : Bytes → ℤ → DataType
with_precision name n =
    DataType.data_type name (some n) none DataType.missing DataType.missing DataType.missing
      NestedFields.end

-- The descriptor of a type.
unfoldable mutual
  pub describe : FieldType → DataType
  describe FieldType.bool = named (codes "BOOLEAN")
  describe FieldType.int8 = named (codes "TINYINT")
  describe FieldType.int16 = named (codes "SMALLINT")
  describe FieldType.int32 = named (codes "INTEGER")
  describe FieldType.int64 = named (codes "BIGINT")
  describe FieldType.float32 = named (codes "FLOAT")
  describe FieldType.float64 = named (codes "DOUBLE")
  describe FieldType.string = named (codes "STRING")
  describe FieldType.bytes = named (codes "BYTES")
  describe FieldType.date = named (codes "DATE")
  describe FieldType.time = named (codes "TIME_WITHOUT_TIME_ZONE")
  describe (FieldType.decimal precision scale) =
      DataType.data_type (codes "DECIMAL") (some precision) (some scale) DataType.missing
        DataType.missing DataType.missing NestedFields.end
  describe (FieldType.timestamp_ntz precision) =
      with_precision (codes "TIMESTAMP_WITHOUT_TIME_ZONE") precision
  describe (FieldType.timestamp_ltz precision) =
      with_precision (codes "TIMESTAMP_WITH_LOCAL_TIME_ZONE") precision
  describe (FieldType.array p) =
      DataType.data_type (codes "ARRAY") none none (describe_ptr p) DataType.missing
        DataType.missing NestedFields.end
  describe (FieldType.map k v) =
      DataType.data_type (codes "MAP") none none DataType.missing (describe_ptr k) (describe_ptr v)
        NestedFields.end
  describe (FieldType.row fs) =
      DataType.data_type (codes "ROW") none none DataType.missing DataType.missing DataType.missing
        (describe_fields fs)
  describe FieldType.unsupported = DataType.missing

  pub describe_ptr : FieldPtr → DataType
  describe_ptr FieldPtr.nil = DataType.missing
  describe_ptr (FieldPtr.ptr t) = describe t

  pub describe_fields : Fields → NestedFields
  describe_fields Fields.end = NestedFields.end
  describe_fields (Fields.field f fs) =
      NestedFields.nested (codes "f") [] DataType.missing (describe f) (describe_fields fs)

given : (f : FieldType) → IsPrintable f → is_missing (describe f) ≡ false
unfolding describe
given FieldType.unsupported p = absurd p
given _ p = refl

first_is_given :
    (f : FieldType) (second : DataType) (one other text : Result Error FieldType)
    → IsPrintable f
    → first_given (describe f) second one other text ≡ one
unfolding describe
first_is_given FieldType.unsupported second one other text p = absurd p
first_is_given _ second one other text p = refl

second_is_given :
    (f : FieldType) (one other text : Result Error FieldType)
    → IsPrintable f
    → first_given DataType.missing (describe f) one other text ≡ other
unfolding describe
second_is_given FieldType.unsupported one other text p = absurd p
second_is_given _ one other text p = refl

mutual
  unfolding to_field_type nested_fields describe describe_ptr describe_fields type_keyword bytes_eq
      to_upper trim_space trim_left trim_right ascii_space value_or_default

  to_field_type-describe : (f : FieldType) → IsPrintable f → to_field_type (describe f) ≡ ok f
  to_field_type-describe (FieldType.array FieldPtr.nil) p = absurd p
  to_field_type-describe (FieldType.array (FieldPtr.ptr f)) p =
      rw (given f p) (rw (to_field_type-describe f p) refl)
  to_field_type-describe (FieldType.map FieldPtr.nil v) p = absurd p.0
  to_field_type-describe (FieldType.map (FieldPtr.ptr k) FieldPtr.nil) p = absurd p.1
  to_field_type-describe (FieldType.map (FieldPtr.ptr k) (FieldPtr.ptr v)) p = rw (given k (p.0)) (
      rw (given v (p.1))
        (rw (to_field_type-describe k (p.0)) (rw (to_field_type-describe v (p.1)) refl)))
  to_field_type-describe (FieldType.row Fields.end) p = absurd p
  to_field_type-describe (FieldType.row (Fields.field f fs)) p =
      rw (nested_fields-describe_fields 0 (Fields.field f fs) p, nested_fields) refl
  to_field_type-describe FieldType.unsupported p = absurd p
  to_field_type-describe _ p = refl

  nested_fields-describe_fields :
      (i : ℕ) (fs : Fields) → ArePrintable fs → nested_fields i (describe_fields fs) ≡ ok fs
  nested_fields-describe_fields i Fields.end p = refl
  nested_fields-describe_fields i (Fields.field f fs) p =
      rw
        (first_is_given f DataType.missing (to_field_type (describe f))
          (err Error.missing_data_type) (text_field_type []) (p.0))
        (rw (to_field_type-describe f (p.0))
          (rw (nested_fields-describe_fields (i + 1) fs (p.1)) refl))

-- The ways to write a column.
pub data Form : Type 0 where
  as_text as_data_type as_field_type : Form

unfoldable pub write_column : Form × SchemaColumn → ColumnJson
write_column (form, c) =
    let none_given : ColumnJson = record {
      name = c.name;
      type_text = [];
      data_type = DataType.missing;
      field_type = DataType.missing;
    } in
    elim form [
      | as_text ↦ record none_given { type_text = print_type c.field_type }
      | as_data_type ↦ record none_given { data_type = describe c.field_type }
      | as_field_type ↦ record none_given { field_type = describe c.field_type }
    ]

abbrev pub column_of : Form × SchemaColumn → SchemaColumn
column_of (form, c) = c

shown : (f : FieldType) → IsPrintable f → (length (print_type f) == 0) ≡ false
unfolding print_type
shown FieldType.unsupported p = absurd p
shown _ p = ground arith

write_column-name : (form : Form) (c : SchemaColumn) → (write_column (form, c)).name ≡ c.name
unfolding write_column
write_column-name as_text c = refl
write_column-name as_data_type c = refl
write_column-name as_field_type c = refl

column_field_type-write_column :
    (form : Form) (c : SchemaColumn)
    → IsPrintable c.field_type
    → column_field_type (write_column (form, c)) ≡ ok c.field_type
unfolding column_field_type write_column text_field_type
column_field_type-write_column as_text c p =
    rw (trim_space-print_type c.field_type p)
      (rw (shown c.field_type p) (parse_field_type-print_type c.field_type p))
column_field_type-write_column as_data_type c p =
    first_is_given c.field_type DataType.missing (to_field_type (describe c.field_type))
      (to_field_type DataType.missing) (text_field_type []) p
    ∙ to_field_type-describe c.field_type p
column_field_type-write_column as_field_type c p =
    second_is_given c.field_type (to_field_type DataType.missing)
      (to_field_type (describe c.field_type)) (text_field_type []) p
    ∙ to_field_type-describe c.field_type p

-- Columns whose types are supported, with no missing element and no row without fields at any depth
-- and with sizes from 0 on that an int holds, give the same columns, those that were written, whether
-- each type is written as a text, as a data_type descriptor or as a field_type descriptor.
pub schema_columns-write_column :
    (cs : List (Form × SchemaColumn))
    → All (λ c. IsPrintable ((c.1).field_type)) cs
    → schema_columns (map write_column cs) ≡ ok (map column_of cs)
unfolding schema_columns
schema_columns-write_column [] p = refl
schema_columns-write_column ((form, c) ∷ cs) (p, ps) =
    rw (column_field_type-write_column form c p)
      (rw (write_column-name form c) (rw (schema_columns-write_column cs ps) refl))
