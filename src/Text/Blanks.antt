-- ===== src/Text/Blanks.antt =====
-- How `TrimLeft(s, " \t")` splits a line into its indentation and the rest.
use integration_suricata_n_d.Base.{
  ◌-◌, true, false, [], ◌∷◌, ◌++◌, ◌≡◌, refl, ap, sym, ◌∙◌, arith, Bytes, if◌then◌else◌, All,
  length, take, length-append, take-length-append, Bool-cases, inl, inr,
}
use integration_suricata_n_d.Text.TrimDefs.{is_blank, trim_left_blank}

-- The blanks that a line begins with.
unfoldable pub leading_blanks : Bytes → Bytes
leading_blanks [] = []
leading_blanks (c ∷ s) = if is_blank c then c ∷ leading_blanks s else []

abbrev pub AllBlank : Bytes → Type 0
AllBlank = All (λ c. is_blank c ≡ true)

-- The text is empty or begins with a byte that is no blank.
abbrev pub StartsInk : Bytes → Type 0
StartsInk [] = Unit {0}
StartsInk (c ∷ s) = is_blank c ≡ false

pub leading_blanks-append-trim : (s : Bytes) → leading_blanks s ++ trim_left_blank s ≡ s
unfolding leading_blanks trim_left_blank
leading_blanks-append-trim [] = refl
leading_blanks-append-trim (c ∷ s) = ground (arith, leading_blanks-append-trim s)

pub leading_blanks-AllBlank : (s : Bytes) → AllBlank (leading_blanks s)
unfolding leading_blanks
leading_blanks-AllBlank [] = tt
leading_blanks-AllBlank (c ∷ s) = elim (Bool-cases (is_blank c)) [
  | inl e ↦ rw e (e, leading_blanks-AllBlank s)
  | inr e ↦ rw e tt
]

pub trim_left_blank-StartsInk : (s : Bytes) → StartsInk (trim_left_blank s)
unfolding trim_left_blank
trim_left_blank-StartsInk [] = tt
trim_left_blank-StartsInk (c ∷ s) = elim (Bool-cases (is_blank c)) [
  | inl e ↦ rw e (trim_left_blank-StartsInk s)
  | inr e ↦ rw e e
]

-- Trimming drops exactly the blanks in front of a text that begins with ink.
pub trim_left_blank-append : (b s : Bytes) → AllBlank b → StartsInk s → trim_left_blank (b ++ s) ≡ s
unfolding trim_left_blank
trim_left_blank-append [] [] h i = refl
trim_left_blank-append [] (c ∷ s) h i = rw i
trim_left_blank-append (c ∷ b) s h i = rw h.0 (trim_left_blank-append b s h.1 i)

pub trim_left_blank-of_ink : (s : Bytes) → StartsInk s → trim_left_blank s ≡ s
trim_left_blank-of_ink s i = trim_left_blank-append [] s tt i

-- The bytes before the trimmed text, as the program cuts them out.
pub take-trim_left_blank :
    (s : Bytes) → take (length s - length (trim_left_blank s)) s ≡ leading_blanks s
take-trim_left_blank s =
    let whole = leading_blanks-append-trim s in
    let count : length s - length (trim_left_blank s) ≡ length (leading_blanks s) =
      omega (arith, length-append (leading_blanks s) (trim_left_blank s), ap length whole) in
    rw count (
      ap (take (length (leading_blanks s))) (sym whole)
      ∙ take-length-append (leading_blanks s) (trim_left_blank s))
