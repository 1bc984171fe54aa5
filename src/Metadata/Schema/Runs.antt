-- ===== src/Metadata/Schema/Runs.antt =====
-- Schema descriptors at concrete inputs.
use fluss_go_client.Prelude.{◌≡◌, refl, Option, some, List, [], ◌∷◌, map, ◌⊎◌, arith}
use fluss_go_client.Prelude.Int.{pos}
use fluss_go_client.Result.{ok, err}
use fluss_go_client.Bytes.{Bytes}
use fluss_go_client.Bytes.Equal.{bytes_eq}
use fluss_go_client.Text.{
  codes, is_letter, is_digit, is_space, skip_spaces, trim_space, trim_left, trim_right, ascii_space,
  to_upper, span,
}
use fluss_go_client.Format.{value}
use fluss_go_client.Row.Types.{FieldType, FieldPtr, Fields}
use fluss_go_client.Metadata.Schema.Parser.{
  Error, keyword, is_identifier_byte, parse_identifier, peek, expect, atoi, parse_int,
  int_args_loop, parse_int_args, skip_size, parse_precision, row_loop, parse_kind, parse_type,
  parse_field_type,
}
use fluss_go_client.Metadata.Schema.Printer.{print_type, IsPrintable}
use fluss_go_client.Metadata.Schema.Printer.RoundTrip.{parse_field_type-print_type}
use fluss_go_client.Metadata.Schema.Fuel.{parse_field_type_total}
use fluss_go_client.Metadata.Schema.Descriptor.{
  DataType, SchemaColumn, ColumnJson, column_field_type, schema_columns, column_types, column_names,
  parse_schema_columns, parse_schema, text_field_type, to_field_type, type_keyword,
}
use fluss_go_client.Metadata.Schema.Descriptor.Forms.{
  named, Form, as_text, as_data_type, write_column, column_of, schema_columns-write_column,
}

-- ROW<f ARRAY<DECIMAL(10,2)>,f TIMESTAMP(3)>
abbrev nested_type : FieldType
nested_type = FieldType.row (
    Fields.field (FieldType.array (FieldPtr.ptr (FieldType.decimal (pos 10) (pos 2))))
      (Fields.field (FieldType.timestamp_ntz (pos 3)) Fields.end))

abbrev is_printable : IsPrintable nested_type
is_printable = ((omega arith, omega arith), (omega arith, tt))

parse_field_type-print_type_example : parse_field_type (print_type nested_type) ≡ ok nested_type
parse_field_type-print_type_example = parse_field_type-print_type nested_type is_printable

spaced_text :
    parse_field_type (codes " map < varchar(5) , Decimal( 10 ,2) > ")
    ≡ ok (
        FieldType.map
          (FieldPtr.ptr FieldType.string)
          (FieldPtr.ptr (FieldType.decimal (pos 10) (pos 2))))
unfolding parse_field_type parse_type parse_kind row_loop parse_precision skip_size parse_int_args
    int_args_loop parse_int atoi expect peek parse_identifier is_identifier_byte keyword bytes_eq
    to_upper trim_space trim_left trim_right ascii_space skip_spaces span is_letter is_digit
    is_space value
spaced_text = refl

abbrev columns : List (Form × SchemaColumn)
columns =
    (as_text, record { name = codes "a"; field_type = nested_type })
    ∷ ((as_data_type, record { name = codes "b"; field_type = FieldType.time }) ∷ [])

schema_columns-write_column_example :
    schema_columns (map write_column columns) ≡ ok (map column_of columns)
schema_columns-write_column_example = schema_columns-write_column columns (is_printable, (tt, tt))

abbrev time_column : ColumnJson
time_column = record {
  name = codes "b";
  type_text = [];
  data_type = named (codes "TIME");
  field_type = DataType.missing;
}

abbrev bad_column : ColumnJson
bad_column = record {
  name = codes "c";
  type_text = codes "ARRAY<";
  data_type = DataType.missing;
  field_type = DataType.missing;
}

time_type : column_field_type time_column ≡ ok FieldType.time
unfolding column_field_type to_field_type type_keyword bytes_eq to_upper trim_space trim_left
    trim_right ascii_space
time_type = refl

bad_type : column_field_type bad_column ≡ err Error.unsupported
unfolding column_field_type text_field_type parse_field_type parse_type parse_kind expect
    parse_identifier is_identifier_byte keyword bytes_eq to_upper trim_space trim_left trim_right
    ascii_space skip_spaces span is_letter is_digit is_space
bad_type = refl

abbrev unmarshal : Bytes → Option (List ColumnJson)
unmarshal text = some (time_column ∷ [])

abbrev time_fields : Fields
time_fields = Fields.field FieldType.time Fields.end

schema_parsed : parse_schema unmarshal [] ≡ ok (time_fields, codes "b" ∷ [])
unfolding parse_schema parse_schema_columns schema_columns column_types column_names
    column_field_type to_field_type type_keyword bytes_eq to_upper trim_space trim_left trim_right
    ascii_space
schema_parsed = refl

parse_field_type_total_example :
    ((f : FieldType) × (parse_field_type (codes "ROW<") ≡ ok f))
    ⊎ ((e : Error) × (parse_field_type (codes "ROW<") ≡ err e))
parse_field_type_total_example = parse_field_type_total (codes "ROW<")
