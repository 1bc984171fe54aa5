-- ===== src/Metadata/Schema/Printer/RoundTrip.antt =====
-- schema_descriptor.go: parseFieldType on the texts of the reference printer.
use fluss_go_client.Prelude.{
  ℕ, zero, suc, ◌+◌, ◌≤◌, ◌<◌, ◌≡◌, refl, ap, sym, ◌∙◌, arith, [], ◌∷◌, ◌++◌, append_assoc,
  append-nil, length, length-append,
}
use fluss_go_client.Prelude.Int.{pos, negsuc}
use fluss_go_client.Result.{Result, ok}
use fluss_go_client.Bytes.{Bytes}
use fluss_go_client.Bytes.Equal.{bytes_eq}
use fluss_go_client.Text.{codes, is_letter, is_digit, is_space, skip_spaces, to_upper, span}
use fluss_go_client.Format.{format_d}
use fluss_go_client.Row.Types.{FieldType, FieldPtr, Fields}
use fluss_go_client.Metadata.Schema.Parser.{
  Error, keyword, is_identifier_byte, parse_identifier, peek, expect, row_loop, parse_kind,
  parse_type, parse_field_type,
}
use fluss_go_client.Metadata.Schema.Printer.{
  print_type, print_ptr, print_fields, print_more, IsPrintable, IsPrintablePtr,
}
use fluss_go_client.Metadata.Schema.Printer.Trim.{trim_space-print_type}
use fluss_go_client.Metadata.Schema.Printer.Words.{
  IsStop, both_args, all_pass, visible, parse_type-keyword, plain_reads, sized_reads,
  precision_read, skip_type,
}

-- The type behind a pointer.
abbrev pointee : FieldPtr → FieldType
pointee FieldPtr.nil = FieldType.unsupported
pointee (FieldPtr.ptr f) = f

-- The rounds of a row: the last field, and a field with others behind it.
row_ends :
    (parse : Bytes → Result Error (FieldType × Bytes)) (rounds : ℕ) (f : FieldType)
    (text rest : Bytes)
    → skip_spaces text ≡ text
    → parse text ≡ ok (f, 62 ∷ rest)
    → row_loop parse (suc rounds) (codes "f " ++ text) ≡ ok (Fields.field f Fields.end, 62 ∷ rest)
unfolding row_loop peek is_identifier_byte is_letter is_digit is_space span skip_spaces
    parse_identifier
row_ends parse rounds f text rest skip h = rw (skip, skip_spaces) (rw h refl)

row_goes_on :
    (parse : Bytes → Result Error (FieldType × Bytes)) (rounds : ℕ) (f : FieldType) (fs : Fields)
    (text others rest : Bytes)
    → skip_spaces text ≡ text
    → parse text ≡ ok (f, 44 ∷ others)
    → row_loop parse rounds others ≡ ok (fs, 62 ∷ rest)
    → row_loop parse (suc rounds) (codes "f " ++ text) ≡ ok (Fields.field f fs, 62 ∷ rest)
unfolding row_loop peek expect is_identifier_byte is_letter is_digit is_space span skip_spaces
    parse_identifier
row_goes_on parse rounds f fs text others rest skip h more =
    rw (skip, skip_spaces) (rw h (rw (more, row_loop) refl))

mutual
  unfolding print_type print_ptr print_fields print_more parse_kind row_loop expect peek keyword
      to_upper bytes_eq all_pass is_identifier_byte is_letter is_digit visible is_space skip_spaces
      span parse_identifier

  type_reads :
      (f : FieldType) (rest : Bytes) (fuel : ℕ)
      → IsPrintable f
      → IsStop rest
      → length (print_type f) ≤ fuel
      → parse_type (suc fuel) (print_type f ++ rest) ≡ ok (f, rest)
  type_reads FieldType.bool rest fuel p stop h =
      plain_reads _ fuel (codes "BOOLEAN") rest refl refl refl stop
  type_reads FieldType.int8 rest fuel p stop h =
      plain_reads _ fuel (codes "TINYINT") rest refl refl refl stop
  type_reads FieldType.int16 rest fuel p stop h =
      plain_reads _ fuel (codes "SMALLINT") rest refl refl refl stop
  type_reads FieldType.int32 rest fuel p stop h =
      plain_reads _ fuel (codes "INT") rest refl refl refl stop
  type_reads FieldType.int64 rest fuel p stop h =
      plain_reads _ fuel (codes "BIGINT") rest refl refl refl stop
  type_reads FieldType.float32 rest fuel p stop h =
      plain_reads _ fuel (codes "FLOAT") rest refl refl refl stop
  type_reads FieldType.float64 rest fuel p stop h =
      plain_reads _ fuel (codes "DOUBLE") rest refl refl refl stop
  type_reads FieldType.date rest fuel p stop h =
      plain_reads _ fuel (codes "DATE") rest refl refl refl stop
  type_reads FieldType.string rest fuel p stop h =
      sized_reads _ fuel (codes "STRING") rest refl refl refl stop
  type_reads FieldType.bytes rest fuel p stop h =
      sized_reads _ fuel (codes "BYTES") rest refl refl refl stop
  type_reads FieldType.time rest fuel p stop h =
      sized_reads _ fuel (codes "TIME") rest refl refl refl stop
  type_reads (FieldType.decimal (pos n) (pos m)) rest fuel p stop h =
      let tail = 40 ∷ (format_d (pos n) ++ (44 ∷ (format_d (pos m) ++ (41 ∷ rest)))) in
      let shape : print_type (FieldType.decimal (pos n) (pos m)) ++ rest ≡ codes "DECIMAL" ++ tail =
        simp append_assoc in
      rw shape (
        parse_type-keyword fuel (codes "DECIMAL") tail refl refl refl
        ∙ rw (both_args n m rest p.0 p.1) refl)
  type_reads (FieldType.decimal (pos n) (negsuc m)) rest fuel p stop h = absurd p.1
  type_reads (FieldType.decimal (negsuc n) m) rest fuel p stop h = absurd p.0
  type_reads (FieldType.timestamp_ntz (pos n)) rest fuel p stop h =
      let tail = 40 ∷ (format_d (pos n) ++ (41 ∷ rest)) in
      let shape : print_type (FieldType.timestamp_ntz (pos n)) ++ rest ≡ codes "TIMESTAMP" ++ tail =
        simp append_assoc in
      rw shape (
        parse_type-keyword fuel (codes "TIMESTAMP") tail refl refl refl
        ∙ rw (precision_read n rest p) refl)
  type_reads (FieldType.timestamp_ntz (negsuc n)) rest fuel p stop h = absurd p
  type_reads (FieldType.timestamp_ltz (pos n)) rest fuel p stop h =
      let tail = 40 ∷ (format_d (pos n) ++ (41 ∷ rest)) in
      let shape : print_type (FieldType.timestamp_ltz (pos n)) ++ rest
          ≡ codes "TIMESTAMP_LTZ" ++ tail =
        simp append_assoc in
      rw shape (
        parse_type-keyword fuel (codes "TIMESTAMP_LTZ") tail refl refl refl
        ∙ rw (precision_read n rest p) refl)
  type_reads (FieldType.timestamp_ltz (negsuc n)) rest fuel p stop h = absurd p
  type_reads (FieldType.array FieldPtr.nil) rest fuel p stop h = absurd p
  type_reads (FieldType.array (FieldPtr.ptr f)) rest fuel p stop h =
      let tail = 60 ∷ (print_type f ++ (62 ∷ rest)) in
      let shape : print_type (FieldType.array (FieldPtr.ptr f)) ++ rest ≡ codes "ARRAY" ++ tail =
        simp append_assoc in
      let inner =
        ptr_reads (FieldPtr.ptr f) (62 ∷ rest) fuel p refl
          (omega (arith, h, length-append (print_type f) (62 ∷ []))) in
      rw shape (parse_type-keyword fuel (codes "ARRAY") tail refl refl refl ∙ rw inner refl)
  type_reads (FieldType.map FieldPtr.nil v) rest fuel p stop h = absurd p.0
  type_reads (FieldType.map (FieldPtr.ptr k) FieldPtr.nil) rest fuel p stop h = absurd p.1
  type_reads (FieldType.map (FieldPtr.ptr k) (FieldPtr.ptr v)) rest fuel p stop h =
      let last = print_type v ++ (62 ∷ rest) in
      let tail = 60 ∷ (print_type k ++ (44 ∷ last)) in
      let shape : print_type (FieldType.map (FieldPtr.ptr k) (FieldPtr.ptr v)) ++ rest
          ≡ codes "MAP" ++ tail =
        simp append_assoc in
      let sizes = length-append (print_type k) (44 ∷ (print_type v ++ (62 ∷ []))) in
      let sizes' = length-append (print_type v) (62 ∷ []) in
      let first =
        ptr_reads (FieldPtr.ptr k) (44 ∷ last) fuel p.0 refl (omega (arith, h, sizes, sizes')) in
      let second =
        ptr_reads (FieldPtr.ptr v) (62 ∷ rest) fuel p.1 refl (omega (arith, h, sizes, sizes')) in
      rw shape
        (parse_type-keyword fuel (codes "MAP") tail refl refl refl ∙ rw first (rw second refl))
  type_reads (FieldType.row fs) rest fuel p stop h =
      let tail = 60 ∷ (print_fields fs ++ (62 ∷ rest)) in
      let shape : print_type (FieldType.row fs) ++ rest ≡ codes "ROW" ++ tail = simp append_assoc in
      let sizes = length-append (print_fields fs) (62 ∷ []) in
      let inner =
        fields_read fs rest fuel fuel p (omega (arith, h, sizes)) (omega (arith, h, sizes)) in
      rw shape (parse_type-keyword fuel (codes "ROW") tail refl refl refl ∙ rw inner refl)
  type_reads FieldType.unsupported rest fuel p stop h = absurd p

  ptr_reads :
      (q : FieldPtr) (rest : Bytes) (fuel : ℕ)
      → IsPrintablePtr q
      → IsStop rest
      → length (print_ptr q) < fuel
      → parse_type fuel (print_ptr q ++ rest) ≡ ok (pointee q, rest)
  ptr_reads FieldPtr.nil rest fuel p stop h = absurd p
  ptr_reads (FieldPtr.ptr f) rest zero p stop h = absurd (omega arith)
  ptr_reads (FieldPtr.ptr f) rest (suc fuel) p stop h =
      type_reads f rest fuel p stop (omega (arith, h))

  fields_read :
      (fs : Fields) (rest : Bytes) (fuel rounds : ℕ)
      → IsPrintable (FieldType.row fs)
      → length (print_fields fs) < fuel
      → length (print_fields fs) < rounds
      → row_loop (λ ts. parse_type fuel ts) rounds (print_fields fs ++ (62 ∷ rest))
        ≡ ok (fs, 62 ∷ rest)
  fields_read Fields.end rest fuel rounds p h k = absurd p
  fields_read fs rest zero rounds p h k = absurd (omega arith)
  fields_read fs rest (suc fuel) zero p h k = absurd (omega arith)
  fields_read (Fields.field f Fields.end) rest (suc fuel) (suc rounds) p h k =
      let text = print_type f ++ (62 ∷ rest) in
      let shape : print_fields (Fields.field f Fields.end) ++ (62 ∷ rest) ≡ codes "f " ++ text =
        simp (append_assoc, append-nil) in
      let size : length (print_type f) ≤ fuel = omega (arith, h, length-append (print_type f) []) in
      ap (λ ts. row_loop (λ x. parse_type (suc fuel) x) (suc rounds) ts) shape
      ∙ row_ends (λ x. parse_type (suc fuel) x) rounds f text rest (skip_type f (62 ∷ rest) p.0)
          (type_reads f (62 ∷ rest) fuel p.0 refl size)
  fields_read (Fields.field f (Fields.field g gs)) rest (suc fuel) (suc rounds) p h k =
      let others = print_fields (Fields.field g gs) in
      let size = length-append (print_type f) (44 ∷ others) in
      let tail = 44 ∷ (others ++ (62 ∷ rest)) in
      let text = print_type f ++ tail in
      let shape : print_fields (Fields.field f (Fields.field g gs)) ++ (62 ∷ rest)
          ≡ codes "f " ++ text =
        simp append_assoc in
      ap (λ ts. row_loop (λ x. parse_type (suc fuel) x) (suc rounds) ts) shape
      ∙ row_goes_on (λ x. parse_type (suc fuel) x) rounds f (Fields.field g gs) text
          (others ++ (62 ∷ rest)) rest (skip_type f tail p.0)
          (type_reads f tail fuel p.0 refl (omega (arith, h, size)))
          (fields_read (Fields.field g gs) rest (suc fuel) rounds p.1 (omega (arith, h, size))
            (omega (arith, k, size)))

-- parseFieldType reads the text of every type back, nested to any depth: types without a missing
-- element or an empty row, whose sizes an int holds, written by a reference printer.
pub parse_field_type-print_type :
    (f : FieldType) → IsPrintable f → parse_field_type (print_type f) ≡ ok f
unfolding parse_field_type skip_spaces
parse_field_type-print_type f p =
    let text = print_type f in
    let read : parse_type (suc (length text)) text ≡ ok (f, []) =
      ap (λ ts. parse_type (suc (length text)) ts) (sym (append-nil text))
      ∙ type_reads f [] (length text) p tt (omega arith) in
    let fuel : length text + 1 ≡ suc (length text) = omega arith in
    rw (trim_space-print_type f p) (rw fuel (rw read refl))
