-- ===== src/Text/TrimDefs.antt =====
-- `TrimLeft(s, " \t")` and `TrimSpace`.
use integration_suricata_n_d.Base.{
  ℕ, zero, suc, Bool, ◌&&◌, ◌||◌, List, [], ◌∷◌, ◌++◌, reverse, leb, ◌==◌, if◌then◌else◌, Bytes,
}

abbrev pub is_blank : ℕ → Bool
is_blank c = c == b' ' || c == b'\t'

unfoldable pub trim_left_blank : Bytes → Bytes
trim_left_blank [] = []
trim_left_blank (c ∷ s) = if is_blank c then trim_left_blank s else c ∷ s

-- `unicode.IsSpace` below 0x80.
unfoldable pub is_ascii_space : ℕ → Bool
is_ascii_space c = c == 32 || leb 9 c && leb c 13

-- `unicode.IsSpace` above: U+0085 and U+00A0 in two bytes.
unfoldable pub is_space_pair : ℕ → ℕ → Bool
is_space_pair a b = a == 0xC2 && (b == 0x85 || b == 0xA0)

-- U+1680, U+2000 to U+200A, U+2028, U+2029, U+202F, U+205F and U+3000, in three bytes.
unfoldable pub is_space_triple : ℕ → ℕ → ℕ → Bool
is_space_triple a b c =
    a == 0xE1 && (b == 0x9A && c == 0x80)
    || a == 0xE2
      && (b == 0x80 && (leb 0x80 c && leb c 0x8A || (c == 0xA8 || (c == 0xA9 || c == 0xAF))))
    || a == 0xE2 && (b == 0x81 && c == 0x9F)
    || a == 0xE3 && (b == 0x80 && c == 0x80)

-- How many bytes the white space at the front takes, 0 where there is none.
unfoldable pub space_width : Bytes → ℕ
unfolding is_ascii_space is_space_pair is_space_triple
space_width [] = 0
space_width (a ∷ []) = if is_ascii_space a then 1 else 0
space_width (a ∷ b ∷ []) = if is_ascii_space a then 1 else if is_space_pair a b then 2 else 0
space_width (a ∷ b ∷ c ∷ s) =
    if is_ascii_space a
    then 1
    else if is_space_pair a b
    then 2
    else if is_space_triple a b c
    then 3
    else 0

-- The same at the end of a text whose bytes are given from the last to the first.
unfoldable pub space_width_back : Bytes → ℕ
unfolding is_ascii_space is_space_pair is_space_triple
space_width_back [] = 0
space_width_back (a ∷ []) = if is_ascii_space a then 1 else 0
space_width_back (b ∷ a ∷ []) = if is_ascii_space b then 1 else if is_space_pair a b then 2 else 0
space_width_back (c ∷ b ∷ a ∷ s) =
    if is_ascii_space c
    then 1
    else if is_space_pair b c
    then 2
    else if is_space_triple a b c
    then 3
    else 0

-- Drops `skip` bytes, then white space as long as `width` finds some.
unfoldable pub trim_by : (Bytes → ℕ) → ℕ → Bytes → Bytes
trim_by width skip [] = []
trim_by width (suc skip) (c ∷ s) = trim_by width skip s
trim_by width zero (c ∷ s) = elim (width (c ∷ s)) [ zero ↦ c ∷ s | suc n ↦ trim_by width n s ]

unfoldable pub trim_space : Bytes → Bytes
unfolding trim_by space_width space_width_back
trim_space s = reverse (trim_by space_width_back 0 (reverse (trim_by space_width 0 s)))

-- `TrimRight(s, "\r\n")`, from the last byte.
unfoldable pub trim_eol : Bytes → Bytes
trim_eol [] = []
trim_eol (c ∷ s) = if c == b'\r' || c == b'\n' then trim_eol s else c ∷ s

unfoldable pub trim_right_eol : Bytes → Bytes
unfolding trim_eol
trim_right_eol s = reverse (trim_eol (reverse s))

abbrev flush_word : Bytes → List Bytes → List Bytes
flush_word [] words = words
flush_word (c ∷ w) words = (c ∷ w) ∷ words

unfoldable pub fields_from : ℕ → Bytes → Bytes → List Bytes
unfolding space_width
fields_from skip word [] = flush_word word []
fields_from (suc skip) word (c ∷ s) = fields_from skip word s
fields_from zero word (c ∷ s) = elim (space_width (c ∷ s)) [
  | zero ↦ fields_from zero (word ++ (c ∷ [])) s
  | suc n ↦ flush_word word (fields_from n [] s)
]

-- `Fields`: the words between white space.
unfoldable pub fields : Bytes → List Bytes
unfolding fields_from
fields s = fields_from 0 [] s
