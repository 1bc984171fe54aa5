-- ===== src/Metadata/Schema/Printer/Trim.antt =====
-- What TrimSpace leaves of the texts of the reference printer: all of it.
use fluss_go_client.Prelude.{ℕ, ◌≡◌, refl, Bool, true, false, not, arith, [], ◌∷◌, ◌++◌}
use fluss_go_client.Bytes.{Bytes}
use fluss_go_client.Text.{codes, trim_right, trim_left, trim_space, ascii_space}
use fluss_go_client.Format.{format_d}
use fluss_go_client.Row.Types.{FieldType}
use fluss_go_client.Metadata.Schema.Printer.{print_type, print_ptr, print_fields, IsPrintable}

-- Texts whose last byte is no space.
unfoldable ends_visible : Bytes → Bool
ends_visible [] = false
ends_visible (b ∷ []) = not (ascii_space b)
ends_visible (b ∷ (c ∷ cs)) = ends_visible (c ∷ cs)

trim_right_visible : (bs : Bytes) → ends_visible bs ≡ true → trim_right bs ≡ bs
unfolding trim_right ends_visible
trim_right_visible [] h = refl
trim_right_visible (b ∷ []) h = ground (arith, h)
trim_right_visible (b ∷ (c ∷ cs)) h = rw (trim_right_visible (c ∷ cs) h, trim_right) refl

ends_visible-append :
    (front back : Bytes) → ends_visible back ≡ true → ends_visible (front ++ back) ≡ true
unfolding ends_visible
ends_visible-append [] back h = h
ends_visible-append (b ∷ []) [] h = absurd cc
ends_visible-append (b ∷ []) (c ∷ cs) h = h
ends_visible-append (b ∷ (c ∷ cs)) back h = ends_visible-append (c ∷ cs) back h

in_brackets :
    (front middle : Bytes) (last : ℕ)
    → ascii_space last ≡ false
    → ends_visible (front ++ (middle ++ (last ∷ []))) ≡ true
unfolding ends_visible
in_brackets front middle last h =
    ends_visible-append front _ (ends_visible-append middle (last ∷ []) (rw h refl))

print_type-ends_visible : (f : FieldType) → IsPrintable f → ends_visible (print_type f) ≡ true
unfolding print_type ends_visible ascii_space
print_type-ends_visible (FieldType.decimal n m) p =
    ends_visible-append (codes "DECIMAL(") (format_d n ++ (codes "," ++ (format_d m ++ codes ")")))
      (ends_visible-append (format_d n) (codes "," ++ (format_d m ++ codes ")"))
        (in_brackets (codes ",") (format_d m) 41 refl))
print_type-ends_visible (FieldType.timestamp_ntz n) p =
    in_brackets (codes "TIMESTAMP(") (format_d n) 41 refl
print_type-ends_visible (FieldType.timestamp_ltz n) p =
    in_brackets (codes "TIMESTAMP_LTZ(") (format_d n) 41 refl
print_type-ends_visible (FieldType.array q) p = in_brackets (codes "ARRAY<") (print_ptr q) 62 refl
print_type-ends_visible (FieldType.map k v) p =
    ends_visible-append (codes "MAP<") (print_ptr k ++ (codes "," ++ (print_ptr v ++ codes ">"))) (
      ends_visible-append (print_ptr k) (codes "," ++ (print_ptr v ++ codes ">"))
        (in_brackets (codes ",") (print_ptr v) 62 refl))
print_type-ends_visible (FieldType.row fs) p = in_brackets (codes "ROW<") (print_fields fs) 62 refl
print_type-ends_visible FieldType.unsupported p = absurd p
print_type-ends_visible _ p = refl

trim_left_type : (f : FieldType) → IsPrintable f → trim_left (print_type f) ≡ print_type f
unfolding print_type trim_left ascii_space
trim_left_type FieldType.unsupported p = absurd p
trim_left_type _ p = refl

pub trim_space-print_type :
    (f : FieldType) → IsPrintable f → trim_space (print_type f) ≡ print_type f
unfolding trim_space
trim_space-print_type f p =
    rw (trim_left_type f p) (trim_right_visible (print_type f) (print_type-ends_visible f p))
