-- ===== src/Text/Joined.antt =====
-- Lines that are joined and split again.
use integration_suricata_n_d.Base.{
  ℕ, false, List, [], ◌∷◌, ◌++◌, ◌≡◌, refl, ap, sym, ◌∙◌, Bytes, Bool-cases, inl, inr, All, ◌==◌,
  append-nil,
}
use integration_suricata_n_d.Text.SearchDefs.{has_suffix}
use integration_suricata_n_d.Text.SplitDefs.{replace_crlf, split, push_front, join, end_line}
use integration_suricata_n_d.Text.Ascii.{All-append}

-- No byte of the text is a carriage return.
abbrev pub NoReturn : Bytes → Type 0
NoReturn = All (λ c. (c == b'\r') ≡ false)

-- No byte of the line is a carriage return or the end of a line.
abbrev pub IsLine : Bytes → Type 0
IsLine = All (λ c. ((c == b'\r') ≡ false) × ((c == b'\n') ≡ false))

pub replace_crlf_same : (s : Bytes) → NoReturn s → replace_crlf s ≡ s
unfolding replace_crlf
replace_crlf_same [] h = refl
replace_crlf_same (c ∷ s) h = rw (h.0, replace_crlf) (ap (◌∷◌ c) (replace_crlf_same s h.1))

push_front-IsLine :
    (c : ℕ) (ls : List Bytes)
    → ((c == b'\r') ≡ false) × ((c == b'\n') ≡ false)
    → All IsLine ls
    → All IsLine (push_front c ls)
push_front-IsLine c [] n h = ((n, tt), tt)
push_front-IsLine c (l ∷ ls) n h = ((n, h.0), h.1)

-- A text with no carriage return splits into lines.
pub split-IsLine : (s : Bytes) → NoReturn s → All IsLine (split s)
unfolding split
split-IsLine [] h = (tt, tt)
split-IsLine (c ∷ s) h = elim (Bool-cases (c == b'\n')) [
  | inl e ↦ rw (e, split) (tt, split-IsLine s h.1)
  | inr e ↦ rw (e, split) (push_front-IsLine c (split s) (h.0, e) (split-IsLine s h.1))
]

split_line : (l : Bytes) → IsLine l → split l ≡ l ∷ []
unfolding split
split_line [] h = refl
split_line (c ∷ l) h = rw (h.0.1, split) (ap (push_front c) (split_line l h.1))

split-append : (l s : Bytes) → IsLine l → split (l ++ (b'\n' ∷ s)) ≡ l ∷ split s
unfolding split
split-append [] s h = refl
split-append (c ∷ l) s h = rw (h.0.1, split) (ap (push_front c) (split-append l s h.1))

-- Joined lines split into themselves.
pub split-join :
    (l : Bytes) (ls : List Bytes) → All IsLine (l ∷ ls) → split (join (l ∷ ls)) ≡ l ∷ ls
unfolding join
split-join l [] h = split_line l h.0
split-join l (m ∷ ls) h = split-append l (join (m ∷ ls)) h.0 ∙ ap (◌∷◌ l) (split-join m ls h.1)

push_front-append :
    (c : ℕ) (ls ms : List Bytes)
    → (n : _) × (k : _) × (ls ≡ n ∷ k)
    → push_front c (ls ++ ms) ≡ push_front c ls ++ ms
push_front-append c ls ms (n, k, e) = rw e refl

split_some : (s : Bytes) → (l : Bytes) × (ls : List Bytes) × (split s ≡ l ∷ ls)
unfolding split
split_some [] = ([], [], refl)
split_some (c ∷ s) = elim (Bool-cases (c == b'\n')) [
  | inl e ↦ ([], split s, rw (e, split) refl)
  | inr e ↦ let (l, ls, f) = split_some s in (c ∷ l, ls, rw (e, split) (ap (push_front c) f))
]

split_ended : (s : Bytes) → split (s ++ (b'\n' ∷ [])) ≡ split s ++ ([] ∷ [])
unfolding split
split_ended [] = refl
split_ended (c ∷ s) = elim (Bool-cases (c == b'\n')) [
  | inl e ↦ rw (e, split) (ap (◌∷◌ []) (split_ended s))
  | inr e ↦
      rw (e, split)
        (ap (push_front c) (split_ended s) ∙ push_front-append c (split s) ([] ∷ []) (split_some s))
]

-- A text that is made to end a line splits as before, but for a blank line behind.
pub split-end_line : (s : Bytes) → (more : List Bytes) × (split (end_line s) ≡ split s ++ more)
unfolding end_line
split-end_line s = elim (Bool-cases (has_suffix s (b'\n' ∷ []))) [
  | inl e ↦ ([], rw (e, end_line) (sym (append-nil (split s))))
  | inr e ↦ ([] ∷ [], rw (e, end_line) (split_ended s))
]

pub end_line-NoReturn : (s : Bytes) → NoReturn s → NoReturn (end_line s)
unfolding end_line
end_line-NoReturn s h = elim (Bool-cases (has_suffix s (b'\n' ∷ []))) [
  | inl e ↦ rw (e, end_line) h
  | inr e ↦ rw (e, end_line) (All-append _ s (b'\n' ∷ []) h (refl, tt))
]

IsLine-NoReturn : (l : Bytes) → IsLine l → NoReturn l
IsLine-NoReturn [] h = tt
IsLine-NoReturn (c ∷ l) h = (h.0.0, IsLine-NoReturn l h.1)

pub join-NoReturn : (lines : List Bytes) → All IsLine lines → NoReturn (join lines)
unfolding join
join-NoReturn [] h = tt
join-NoReturn (l ∷ []) h = IsLine-NoReturn l h.0
join-NoReturn (l ∷ m ∷ ls) h =
    All-append _ l (b'\n' ∷ join (m ∷ ls)) (IsLine-NoReturn l h.0)
      (refl, join-NoReturn (m ∷ ls) h.1)
