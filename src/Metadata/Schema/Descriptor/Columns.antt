-- ===== src/Metadata/Schema/Descriptor/Columns.antt =====
-- schema_descriptor.go: ParseSchema on any text.
use fluss_go_client.Prelude.{
  ◌≡◌, refl, ap, sym, ◌∙◌, Option, none, some, List, [], ◌∷◌, ◌++◌, map, All,
}
use fluss_go_client.Result.{ok, err, map_error, >>=-eq-ok, map_error-eq-ok, ok_injective}
use fluss_go_client.Bytes.{Bytes}
use fluss_go_client.Row.Types.{FieldType, Fields}
use fluss_go_client.Metadata.Schema.Parser.{Error}
use fluss_go_client.Metadata.Schema.Descriptor.{
  SchemaColumn, ColumnJson, column_field_type, type_label, schema_columns, column_types,
  column_names, parse_schema_columns, parse_schema,
}

-- A field for each column, in the order of the columns, of the type that the column says.
unfoldable pub AreColumnTypes : List ColumnJson → Fields → Type 0
AreColumnTypes [] Fields.end = Unit
AreColumnTypes (c ∷ cs) (Fields.field f fs) = (column_field_type c ≡ ok f) × AreColumnTypes cs fs
AreColumnTypes _ _ = ⊥

-- A column that has a type.
abbrev pub HasType : ColumnJson → Type 0
HasType c = (f : FieldType) × (column_field_type c ≡ ok f)

schema_columns-eq-ok :
    (cs : List ColumnJson) (out : List SchemaColumn)
    → schema_columns cs ≡ ok out
    → (column_names out ≡ map (λ c. c.name) cs) × AreColumnTypes cs (column_types out)
unfolding schema_columns column_types column_names AreColumnTypes
schema_columns-eq-ok [] out h = rw (sym (ok_injective h)) (refl, tt)
schema_columns-eq-ok (c ∷ cs) out h =
    let (f, e1, h1) =
      >>=-eq-ok (map_error (Error.at_column c.name (type_label c)) (column_field_type c)) _ h in
    let (rest, e2, h2) = >>=-eq-ok (schema_columns cs) _ h1 in
    let (names, types) = schema_columns-eq-ok cs rest e2 in
    let typed = map_error-eq-ok _ (column_field_type c) e1 in
    rw (sym (ok_injective h2)) (ap (λ ns. c.name ∷ ns) names, (typed, types))

unmarshalled :
    (o : Option (List ColumnJson)) (out : List SchemaColumn)
    → (elim o [ none ↦ err Error.bad_json | some columns ↦ schema_columns columns ]) ≡ ok out
    → (cs : List ColumnJson) × (o ≡ some cs) × (schema_columns cs ≡ ok out)
unmarshalled none out h = cc
unmarshalled (some cs) out h = (cs, refl, h)

-- If ParseSchema gives a schema and names, json.Unmarshal gave columns, the names are theirs in order,
-- and the schema has one field for each, of the type that the column says.
pub parse_schema-AreColumnTypes :
    (unmarshal : Bytes → Option (List ColumnJson)) (text : Bytes) (fs : Fields) (names : List Bytes)
    → parse_schema unmarshal text ≡ ok (fs, names)
    → (cs : List ColumnJson) × (unmarshal text ≡ some cs)
      × (names ≡ map (λ c. c.name) cs)
      × AreColumnTypes cs fs
unfolding parse_schema parse_schema_columns
parse_schema-AreColumnTypes unmarshal text fs names h =
    let (out, e, h1) = >>=-eq-ok (parse_schema_columns unmarshal text) _ h in
    let (cs, u, h2) = unmarshalled (unmarshal text) out e in
    let (same_names, types) = schema_columns-eq-ok cs out h2 in
    let pair = ok_injective h1 in
    let are : AreColumnTypes cs fs = rw (ap (λ p. p.0) pair) at types in
    (cs, u, sym (ap (λ p. p.1) pair) ∙ same_names, are)

-- Behind columns that have types, the first column whose type is an error ends ParseSchemaColumns with
-- that error, under its name and its label, whatever follows.
pub schema_columns_first_error :
    (front : List ColumnJson) (c : ColumnJson) (back : List ColumnJson) (e : Error)
    → All HasType front
    → column_field_type c ≡ err e
    → schema_columns (front ++ (c ∷ back)) ≡ err (Error.at_column c.name (type_label c) e)
unfolding schema_columns
schema_columns_first_error [] c back e typed h = rw h refl
schema_columns_first_error (d ∷ front) c back e ((f, t), typed) h =
    rw t (rw (schema_columns_first_error front c back e typed h) refl)
