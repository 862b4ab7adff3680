-- ===== src/Line/Pieces.antt =====
-- The pieces of a line: indentation, a comment mark, white space, a core and white space.
use integration_suricata_n_d.Base.{
  ℕ, true, false, [], ◌∷◌, ◌++◌, ◌≡◌, ◌≢◌, refl, ap, sym, ◌∙◌, subst, arith, Bytes, Bool-cases, inl,
  inr, append-nil, append_assoc, ◌==◌, reverse, All,
}
use mathlib.Core.List.{reverse-append, reverse-cons, concat-ne-nil}
use integration_suricata_n_d.Text.{
  has_prefix, trim_prefix, trim_space, trim_left_blank, is_blank, is_ascii_space,
}
use integration_suricata_n_d.Text.Ascii.{
  IsAscii, AllSpace, StartsSolid, IsCore, Trimmed, trim_space_core, All-append, All-of_append,
}
use integration_suricata_n_d.Text.Blanks.{AllBlank, leading_blanks, leading_blanks-append-trim}
use integration_suricata_n_d.Line.{hash, is_commented}
use integration_suricata_n_d.Line.Comment.{behind_mark}

-- The line with no white space and no comment mark in front.
abbrev pub searched : Bytes → Bytes
searched line = trim_space (trim_prefix (trim_space line) hash)

pub AllSpace-of_blank : (b : Bytes) → AllBlank b → AllSpace b
unfolding is_ascii_space
AllSpace-of_blank [] h = tt
AllSpace-of_blank (c ∷ b) h = (ground arith, AllSpace-of_blank b h.1)

-- What stands behind a comment mark is a part of the text.
pub trim_prefix-hash : (s : Bytes) → (a : Bytes) × (s ≡ a ++ trim_prefix s hash)
unfolding trim_prefix has_prefix
trim_prefix-hash [] = ([], refl)
trim_prefix-hash (c ∷ s) = elim (Bool-cases (c == b'#')) [
  | inl e ↦ (c ∷ [], ground arith)
  | inr e ↦ ([], ground arith)
]

-- A byte that is no white space, in front of a text with ink, keeps the text's end.
pub marked-IsCore :
    (m c : ℕ) (a k : Bytes)
    → is_ascii_space m ≡ false
    → IsCore (c ∷ k)
    → IsCore (m ∷ (a ++ (c ∷ k)))
marked-IsCore m c a k n h = (
  n,
  rw (reverse-append (m ∷ a) (c ∷ k))
      (solid_front (reverse (c ∷ k)) (reverse (m ∷ a)) (reverse-cons-ne c k) h.1),
)
  where
    solid_front : (s t : Bytes) → s ≢ [] → StartsSolid s → StartsSolid (s ++ t)
    solid_front [] t n i = absurd (n refl)
    solid_front (x ∷ s) t n i = i

    reverse-cons-ne : (c : ℕ) (k : Bytes) → reverse (c ∷ k) ≢ []
    reverse-cons-ne c k e = concat-ne-nil c (reverse k) (rw reverse-cons at e)

module _ (ind a b : Bytes) (ind_space : AllSpace ind) (a_space : AllSpace a) (b_space : AllSpace b)
    (ind_ascii : IsAscii ind) (a_ascii : IsAscii a) (b_ascii : IsAscii b) where
  pub IsAscii-of : (core : Bytes) → IsAscii core → IsAscii (ind ++ (a ++ (core ++ b)))
  IsAscii-of core h =
      All-append _ ind _ ind_ascii (All-append _ a _ a_ascii (All-append _ core b h b_ascii))

  pub trim_space_pieces :
      (core : Bytes) → IsAscii core → IsCore core → trim_space (ind ++ (a ++ (core ++ b))) ≡ core
  trim_space_pieces core h hc =
      ap trim_space (sym (append_assoc ind a (core ++ b)))
      ∙ trim_space_core (ind ++ a) core b
          (subst IsAscii (sym (append_assoc ind a (core ++ b))) (IsAscii-of core h))
          (All-append _ ind a ind_space a_space) b_space hc

  pub trim_space_marked :
      (c : ℕ) (k : Bytes)
      → IsAscii (c ∷ k)
      → IsCore (c ∷ k)
      → trim_space (ind ++ (b'#' ∷ (a ++ ((c ∷ k) ++ b)))) ≡ b'#' ∷ (a ++ (c ∷ k))
  trim_space_marked c k h hc =
      ap (λ s. trim_space (ind ++ (b'#' ∷ s))) (sym (append_assoc a (c ∷ k) b))
      ∙ trim_space_core ind (b'#' ∷ (a ++ (c ∷ k))) b
          (All-append _ ind _ ind_ascii
            (omega arith, All-append _ (a ++ (c ∷ k)) b (All-append _ a (c ∷ k) a_ascii h) b_ascii))
          ind_space b_space (marked-IsCore b'#' c a k (unfold is_ascii_space in refl) hc)

  -- What stands between the mark and the end of a marked line is its core.
  pub searched_marked :
      (c : ℕ) (k : Bytes)
      → IsAscii (c ∷ k)
      → IsCore (c ∷ k)
      → searched (ind ++ (b'#' ∷ (a ++ ((c ∷ k) ++ b)))) ≡ c ∷ k
  unfolding trim_prefix has_prefix
  searched_marked c k h hc =
      ap (λ s. trim_space (trim_prefix s hash)) (trim_space_marked c k h hc)
      ∙ ap (λ s. trim_space (a ++ s)) (sym (append-nil (c ∷ k)))
      ∙ trim_space_core a (c ∷ k) []
          (All-append _ a _ a_ascii (subst IsAscii (sym (append-nil (c ∷ k))) h)) a_space tt hc

-- The pieces of an ASCII text are ASCII.
pub pieces-IsAscii :
    (s : Bytes) (t : Trimmed s) → IsAscii s → IsAscii t.before × IsAscii t.core × IsAscii t.after
pieces-IsAscii s t h =
    let (x, y) = All-of_append _ t.before (t.core ++ t.after) (subst IsAscii t.splits h) in
    let (z, u) = All-of_append _ t.core t.after y in (x, z, u)

pub indent-IsAscii :
    (line : Bytes) → IsAscii line → IsAscii (leading_blanks line) × IsAscii (trim_left_blank line)
indent-IsAscii line h =
    All-of_append _ (leading_blanks line) (trim_left_blank line)
      (subst IsAscii (sym (leading_blanks-append-trim line)) h)

pub trim_left_blank-solid :
    (a : Bytes) (c : ℕ) (s : Bytes)
    → is_ascii_space c ≡ false
    → trim_left_blank (a ++ (c ∷ s)) ≡ trim_left_blank a ++ (c ∷ s)
unfolding trim_left_blank is_ascii_space
trim_left_blank-solid [] c s h = ground arith
trim_left_blank-solid (x ∷ a) c s h = elim (Bool-cases (is_blank x)) [
  | inl e ↦ rw e (trim_left_blank-solid a c s h)
  | inr e ↦ rw e refl
]

pub trim_left_blank-All : (P : ℕ → Type 0) (a : Bytes) → All P a → All P (trim_left_blank a)
unfolding trim_left_blank
trim_left_blank-All P [] h = tt
trim_left_blank-All P (x ∷ a) h = elim (Bool-cases (is_blank x)) [
  | inl e ↦ rw e (trim_left_blank-All P a h.1)
  | inr e ↦ rw e h
]

-- The line has one comment mark, not two.
abbrev pub HasOneMark : Bytes → Type 0
HasOneMark line = has_prefix (searched line) hash ≡ false

pub first_not_hash :
    (a : Bytes) (c : ℕ) (s : Bytes)
    → AllSpace a
    → has_prefix (c ∷ []) hash ≡ false
    → has_prefix (a ++ (c ∷ s)) hash ≡ false
unfolding has_prefix is_ascii_space
first_not_hash [] c s h n = ground arith
first_not_hash (x ∷ a) c s h n = ground arith

pub trim_prefix_none :
    (c : ℕ) (k : Bytes) → has_prefix (c ∷ k) hash ≡ false → trim_prefix (c ∷ k) hash ≡ c ∷ k
unfolding trim_prefix
trim_prefix_none c k h = rw h

pub has_prefix_first :
    (c : ℕ) (k : Bytes) → has_prefix (c ∷ k) hash ≡ false → has_prefix (c ∷ []) hash ≡ false
unfolding has_prefix
has_prefix_first c k h = ground arith

pub behind_mark_lem :
    (line y : Bytes) → trim_left_blank line ≡ b'#' ∷ y → behind_mark line ≡ trim_left_blank y
unfolding trim_prefix has_prefix
behind_mark_lem line y e = rw e

pub hash_front :
    (line : Bytes) → is_commented line ≡ true → (y : Bytes) × (trim_left_blank line ≡ b'#' ∷ y)
unfolding is_commented
hash_front line h = front (trim_left_blank line) h
  where
    front : (s : Bytes) → has_prefix s hash ≡ true → (y : Bytes) × (s ≡ b'#' ∷ y)
    front [] k = unfold has_prefix in cc
    front (c ∷ y) k = (y, unfold has_prefix in ground arith)
