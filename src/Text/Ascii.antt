-- ===== src/Text/Ascii.antt =====
-- `TrimSpace` on ASCII texts: it drops the white space at both ends and nothing else.
use integration_suricata_n_d.Base.{
  ℕ, ◌<◌, true, false, List, [], ◌∷◌, ◌++◌, ◌≡◌, refl, ap, sym, ◌∙◌, subst, arith, Bytes,
  if◌then◌else◌, Bool-cases, inl, inr, All, reverse,
}
use mathlib.Core.List.{reverse-cons, reverse-append, reverse-reverse}
use integration_suricata_n_d.Text.TrimDefs.{
  is_ascii_space, space_width, space_width_back, trim_by, trim_space,
}

abbrev pub IsAscii : Bytes → Type 0
IsAscii = All (λ c. c < 128)

abbrev pub AllSpace : Bytes → Type 0
AllSpace = All (λ c. is_ascii_space c ≡ true)

-- The text is empty or begins with a byte that is no white space.
abbrev pub StartsSolid : Bytes → Type 0
StartsSolid [] = Unit {0}
StartsSolid (c ∷ s) = is_ascii_space c ≡ false

pub All-append {ℓ κ} :
    {A : Type ℓ} (P : A → Type κ) (xs ys : List A) → All P xs → All P ys → All P (xs ++ ys)
All-append P [] ys h k = k
All-append P (x ∷ xs) ys h k = (h.0, All-append P xs ys h.1 k)

pub All-of_append {ℓ κ} :
    {A : Type ℓ} (P : A → Type κ) (xs ys : List A) → All P (xs ++ ys) → All P xs × All P ys
All-of_append P [] ys h = (tt, h)
All-of_append P (x ∷ xs) ys h = let (a, b) = All-of_append P xs ys h.1 in ((h.0, a), b)

pub All-reverse {ℓ κ} : {A : Type ℓ} (P : A → Type κ) (xs : List A) → All P xs → All P (reverse xs)
All-reverse P [] h = tt
All-reverse P (x ∷ xs) h =
    rw reverse-cons (All-append P (reverse xs) (x ∷ []) (All-reverse P xs h.1) (h.0, tt))

drop_spaces : Bytes → Bytes
drop_spaces [] = []
drop_spaces (c ∷ s) = if is_ascii_space c then drop_spaces s else c ∷ s

lead_spaces : Bytes → Bytes
lead_spaces [] = []
lead_spaces (c ∷ s) = if is_ascii_space c then c ∷ lead_spaces s else []

space_width-ascii :
    (c : ℕ) (s : Bytes)
    → IsAscii (c ∷ s)
    → space_width (c ∷ s) ≡ (if is_ascii_space c then 1 else 0)
unfolding space_width
space_width-ascii c [] h = refl
space_width-ascii c (d ∷ []) h = ground arith
space_width-ascii c (d ∷ e ∷ s) h = ground arith

space_width_back-ascii :
    (c : ℕ) (s : Bytes)
    → IsAscii (c ∷ s)
    → space_width_back (c ∷ s) ≡ (if is_ascii_space c then 1 else 0)
unfolding space_width_back
space_width_back-ascii c [] h = refl
space_width_back-ascii c (d ∷ []) h = ground arith
space_width_back-ascii c (d ∷ e ∷ s) h = ground arith

trim_by-drop_spaces :
    (width : Bytes → ℕ) (s : Bytes)
    → ((c : ℕ) (t : Bytes) → IsAscii (c ∷ t) → width (c ∷ t) ≡ (if is_ascii_space c then 1 else 0))
    → IsAscii s
    → trim_by width 0 s ≡ drop_spaces s
unfolding trim_by drop_spaces
trim_by-drop_spaces width [] h a = refl
trim_by-drop_spaces width (c ∷ s) h a = elim (Bool-cases (is_ascii_space c)) [
  | inl e ↦ ground (arith, h c s a, e, trim_by-drop_spaces width s h a.1)
  | inr e ↦ ground (arith, h c s a, e)
]

lead_spaces-append-drop : (s : Bytes) → lead_spaces s ++ drop_spaces s ≡ s
unfolding lead_spaces drop_spaces
lead_spaces-append-drop [] = refl
lead_spaces-append-drop (c ∷ s) = ground (arith, lead_spaces-append-drop s)

lead_spaces-AllSpace : (s : Bytes) → AllSpace (lead_spaces s)
unfolding lead_spaces
lead_spaces-AllSpace [] = tt
lead_spaces-AllSpace (c ∷ s) = elim (Bool-cases (is_ascii_space c)) [
  | inl e ↦ rw e (e, lead_spaces-AllSpace s)
  | inr e ↦ rw e tt
]

drop_spaces-StartsSolid : (s : Bytes) → StartsSolid (drop_spaces s)
unfolding drop_spaces
drop_spaces-StartsSolid [] = tt
drop_spaces-StartsSolid (c ∷ s) = elim (Bool-cases (is_ascii_space c)) [
  | inl e ↦ rw e (drop_spaces-StartsSolid s)
  | inr e ↦ rw e e
]

drop_spaces-append : (a s : Bytes) → AllSpace a → drop_spaces (a ++ s) ≡ drop_spaces s
unfolding drop_spaces
drop_spaces-append [] s h = refl
drop_spaces-append (c ∷ a) s h = rw h.0 (drop_spaces-append a s h.1)

drop_spaces_solid : (s : Bytes) → StartsSolid s → drop_spaces s ≡ s
unfolding drop_spaces
drop_spaces_solid [] h = refl
drop_spaces_solid (c ∷ s) h = rw h

trim_space-ascii :
    (s : Bytes) → IsAscii s → trim_space s ≡ reverse (drop_spaces (reverse (drop_spaces s)))
unfolding trim_space
trim_space-ascii s a =
    let left = trim_by-drop_spaces space_width s space_width-ascii a in
    let kept : IsAscii (drop_spaces s) =
      (All-of_append (λ c. c < 128) (lead_spaces s) (drop_spaces s)
        (rw lead_spaces-append-drop a)).1 in
    rw left (
      ap reverse (
        trim_by-drop_spaces space_width_back (reverse (drop_spaces s)) space_width_back-ascii
          (All-reverse (λ c. c < 128) (drop_spaces s) kept)))

-- A text with no white space at its ends.
abbrev pub IsCore : Bytes → Type 0
IsCore core = StartsSolid core × StartsSolid (reverse core)

all_dropped : (b : Bytes) → AllSpace b → drop_spaces b ≡ []
unfolding drop_spaces
all_dropped [] h = refl
all_dropped (c ∷ b) h = rw h.0 (all_dropped b h.1)

-- White space around a core is all that `TrimSpace` drops.
pub trim_space_core :
    (a core b : Bytes)
    → IsAscii (a ++ (core ++ b))
    → AllSpace a
    → AllSpace b
    → IsCore core
    → trim_space (a ++ (core ++ b)) ≡ core
unfolding drop_spaces
trim_space_core a [] b ascii ha hb hc =
    rw (trim_space-ascii (a ++ b) ascii, drop_spaces-append a b ha) (rw (all_dropped b hb) refl)
trim_space_core a (c ∷ k) b ascii ha hb hc =
    rw
      (
        trim_space-ascii (a ++ ((c ∷ k) ++ b)) ascii,
        drop_spaces-append a ((c ∷ k) ++ b) ha,
        drop_spaces_solid ((c ∷ k) ++ b) hc.0,
        reverse-append (c ∷ k) b,
        drop_spaces-append (reverse b) (reverse (c ∷ k)) (All-reverse _ b hb),
        drop_spaces_solid (reverse (c ∷ k)) hc.1,
      )
      (reverse-reverse (c ∷ k))

-- How a text falls into white space, a core, and white space.
pub record Trimmed (s : Bytes) : Type 0 where
  pub before : Bytes
  pub core : Bytes
  pub after : Bytes
  pub splits : s ≡ before ++ (core ++ after)
  pub before_space : AllSpace before
  pub after_space : AllSpace after
  pub core_solid : IsCore core

prefix_solid : (core b u : Bytes) → u ≡ core ++ b → StartsSolid u → StartsSolid core
prefix_solid [] b u e h = tt
prefix_solid (c ∷ k) b u e h = rw e at h

-- Every text falls so.
pub trimmed : (s : Bytes) → Trimmed s
trimmed s =
    let u = drop_spaces s in
    let core = reverse (drop_spaces (reverse u)) in
    let after = reverse (lead_spaces (reverse u)) in
    let back : u ≡ core ++ after =
      sym (reverse-reverse u)
      ∙ ap reverse (sym (lead_spaces-append-drop (reverse u)))
      ∙ reverse-append (lead_spaces (reverse u)) (drop_spaces (reverse u)) in
    record {
      before = lead_spaces s;
      core = core;
      after = after;
      splits = sym (lead_spaces-append-drop s) ∙ ap (◌++◌ (lead_spaces s)) back;
      before_space = lead_spaces-AllSpace s;
      after_space = All-reverse _ (lead_spaces (reverse u)) (lead_spaces-AllSpace (reverse u));
      core_solid = (
        prefix_solid core after u back (drop_spaces-StartsSolid s),
        rw reverse-reverse (drop_spaces-StartsSolid (reverse u)),
      );
    }

pub trim_space-trimmed : (s : Bytes) → IsAscii s → trim_space s ≡ (trimmed s).core
trim_space-trimmed s ascii =
    let t = trimmed s in
    ap trim_space t.splits
    ∙ trim_space_core t.before t.core t.after (subst IsAscii t.splits ascii) t.before_space
        t.after_space t.core_solid
