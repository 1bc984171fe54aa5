-- ===== src/Metadata/Schema/Printer.antt =====
-- A reference for the texts of schema_descriptor.go: how a type is written in the form that Fluss uses,
-- with one blank behind a field's name.
pub mod Words
pub mod Trim
pub mod RoundTrip
use fluss_go_client.Prelude.{ℕ, ◌^◌, ◌<◌, ◌≡◌, [], ◌∷◌, ◌++◌}
use fluss_go_client.Prelude.Int.{ℤ, pos, negsuc}
use fluss_go_client.Bytes.{Bytes}
use fluss_go_client.Text.{codes}
use fluss_go_client.Format.{format_d}
use fluss_go_client.Row.Types.{FieldType, FieldPtr, Fields}

abbrev pub print_size : ℤ → Bytes
print_size n = codes "(" ++ (format_d n ++ codes ")")

unfoldable mutual
  pub print_type : FieldType → Bytes
  print_type FieldType.bool = codes "BOOLEAN"
  print_type FieldType.int8 = codes "TINYINT"
  print_type FieldType.int16 = codes "SMALLINT"
  print_type FieldType.int32 = codes "INT"
  print_type FieldType.int64 = codes "BIGINT"
  print_type FieldType.float32 = codes "FLOAT"
  print_type FieldType.float64 = codes "DOUBLE"
  print_type FieldType.string = codes "STRING"
  print_type FieldType.bytes = codes "BYTES"
  print_type FieldType.date = codes "DATE"
  print_type FieldType.time = codes "TIME"
  print_type (FieldType.decimal precision scale) =
      codes "DECIMAL"
      ++ (codes "(" ++ (format_d precision ++ (codes "," ++ (format_d scale ++ codes ")"))))
  print_type (FieldType.timestamp_ntz precision) = codes "TIMESTAMP" ++ print_size precision
  print_type (FieldType.timestamp_ltz precision) = codes "TIMESTAMP_LTZ" ++ print_size precision
  print_type (FieldType.array p) = codes "ARRAY" ++ (codes "<" ++ (print_ptr p ++ codes ">"))
  print_type (FieldType.map k v) =
      codes "MAP" ++ (codes "<" ++ (print_ptr k ++ (codes "," ++ (print_ptr v ++ codes ">"))))
  print_type (FieldType.row fs) = codes "ROW" ++ (codes "<" ++ (print_fields fs ++ codes ">"))
  print_type FieldType.unsupported = []

  pub print_ptr : FieldPtr → Bytes
  print_ptr FieldPtr.nil = []
  print_ptr (FieldPtr.ptr t) = print_type t

  pub print_fields : Fields → Bytes
  print_fields Fields.end = []
  print_fields (Fields.field f fs) = codes "f " ++ (print_type f ++ print_more fs)

  pub print_more : Fields → Bytes
  print_more Fields.end = []
  print_more (Fields.field f fs) = codes "," ++ (codes "f " ++ (print_type f ++ print_more fs))

-- A size that an int holds.
abbrev pub IsSize : ℤ → Type 0
IsSize (pos n) = n < 2 ^ 63
IsSize (negsuc n) = ⊥

-- Types that can be written: no missing element, no row without fields, sizes from 0 on.
abbrev mutual
  pub IsPrintable : FieldType → Type 0
  IsPrintable (FieldType.decimal precision scale) = IsSize precision × IsSize scale
  IsPrintable (FieldType.timestamp_ntz precision) = IsSize precision
  IsPrintable (FieldType.timestamp_ltz precision) = IsSize precision
  IsPrintable (FieldType.array p) = IsPrintablePtr p
  IsPrintable (FieldType.map k v) = IsPrintablePtr k × IsPrintablePtr v
  IsPrintable (FieldType.row Fields.end) = ⊥
  IsPrintable (FieldType.row (Fields.field f fs)) = IsPrintable f × ArePrintable fs
  IsPrintable FieldType.unsupported = ⊥
  IsPrintable _ = Unit

  pub IsPrintablePtr : FieldPtr → Type 0
  IsPrintablePtr FieldPtr.nil = ⊥
  IsPrintablePtr (FieldPtr.ptr t) = IsPrintable t

  pub ArePrintable : Fields → Type 0
  ArePrintable Fields.end = Unit
  ArePrintable (Fields.field f fs) = IsPrintable f × ArePrintable fs
