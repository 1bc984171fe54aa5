-- ===== src/Text.antt =====
-- Texts as bytes: literals, what package strings does to ASCII texts (it leaves bytes above 127 alone
-- here), and what package unicode says of a byte taken for a rune.
use Prim.Native.Char.{code}
use Prim.Native.String.{String}
use fluss_go_client.Prelude.{ℕ, ◌-◌, Bool, ◌&&◌, ◌||◌, leb, ◌==◌, if◌then◌else◌, [], ◌∷◌, map}
use fluss_go_client.Bytes.{Bytes}

-- The bytes of an ASCII literal.
abbrev pub codes : String → Bytes
codes String.[] = []
codes (String.◌∷◌ c s) = code c ∷ codes s

abbrev between : ℕ → ℕ → ℕ → Bool
between low high b = leb low b && leb b high

-- unicode.IsSpace of a byte: tab to carriage return, the blank, and two in the upper half of Latin-1.
unfoldable pub is_space : ℕ → Bool
is_space b = between 9 13 b || ((b == 32) || ((b == 133) || (b == 160)))

-- unicode.IsDigit of a byte.
unfoldable pub is_digit : ℕ → Bool
is_digit b = between 48 57 b

-- unicode.IsLetter of a byte: ASCII letters, and the letters of the upper half of Latin-1.
unfoldable pub is_letter : ℕ → Bool
is_letter b =
    between 65 90 b
    || (between 97 122 b
        || ((b == 170)
            || ((b == 181)
                || ((b == 186)
                    || (between 192 214 b || (between 216 246 b || between 248 255 b))))))

abbrev upper : ℕ → ℕ
upper b = if between 97 122 b then b - 32 else b

-- strings.ToUpper
unfoldable pub to_upper : Bytes → Bytes
to_upper bs = map upper bs

unfoldable pub skip_spaces : Bytes → Bytes
skip_spaces [] = []
skip_spaces (b ∷ bs) = let rest = skip_spaces bs in if is_space b then rest else b ∷ bs

-- asciiSpace of package strings
unfoldable pub ascii_space : ℕ → Bool
ascii_space b = between 9 13 b || (b == 32)

unfoldable pub trim_left : Bytes → Bytes
trim_left [] = []
trim_left (b ∷ bs) = let rest = trim_left bs in if ascii_space b then rest else b ∷ bs

unfoldable pub trim_right : Bytes → Bytes
trim_right [] = []
trim_right (b ∷ bs) = elim (trim_right bs) [
  | [] ↦ if ascii_space b then [] else b ∷ []
  | c ∷ cs ↦ b ∷ (c ∷ cs)
]

-- strings.TrimSpace
unfoldable pub trim_space : Bytes → Bytes
unfolding trim_right
trim_space bs = trim_right (trim_left bs)

-- The bytes in front that pass a test, and what follows them.
unfoldable pub span : (ℕ → Bool) → Bytes → Bytes × Bytes
span t [] = ([], [])
span t (b ∷ bs) = let (front, rest) = span t bs in if t b then (b ∷ front, rest) else ([], b ∷ bs)
