-- ===== src/Patch/Item.antt =====
-- The list item that `ensurePluginsNDPI` puts into a block.
use integration_suricata_n_d.Base.{
  ℕ, zero, suc, true, false, [], ◌∷◌, ◌++◌, ◌≡◌, refl, ap, sym, ◌∙◌, subst, arith, Bytes, codes,
  length, Bool-cases, inl, inr, append-nil,
}
use integration_suricata_n_d.Text.{has_prefix, trim_prefix, contains, trim_space, is_ascii_space}
use integration_suricata_n_d.Text.Ascii.{
  IsAscii, IsCore, trimmed, trim_space-trimmed, trim_space_core, All-append, All-of_append,
}
use integration_suricata_n_d.Text.Blanks.{AllBlank, StartsInk}
use integration_suricata_n_d.Text.Inside.{contains-append_left, contains-append_right}
use integration_suricata_n_d.Line.{hash, is_commented, normalize_key, indent_width}
use integration_suricata_n_d.Line.Comment.{
  is_commented-append, leading_blanks-append, indent_width-leading_blanks,
}
use integration_suricata_n_d.Line.Pieces.{
  AllSpace-of_blank, pieces-IsAscii, marked-IsCore, trim_prefix-hash,
}
use integration_suricata_n_d.Line.Key.{normalize_plain, normalize_marked, trim_space_idem}
use integration_suricata_n_d.Patch.Plugins.{ndpi_so, names_ndpi, spaces, as_item}

-- An item begins with its dash, ends in no white space, and names the plugin.
pub record IsItem (item : Bytes) : Type 0 where
  pub ascii : IsAscii item
  pub core : IsCore item
  pub rest : Bytes
  pub dashed : item ≡ b'-' ∷ rest
  pub named : contains item ndpi_so ≡ true

spaces-AllBlank : (n : ℕ) → AllBlank (spaces n)
unfolding spaces
spaces-AllBlank zero = tt
spaces-AllBlank (suc n) = (refl, spaces-AllBlank n)

spaces-IsAscii : (n : ℕ) → IsAscii (spaces n)
unfolding spaces
spaces-IsAscii zero = tt
spaces-IsAscii (suc n) = (omega arith, spaces-IsAscii n)

length-spaces : (n : ℕ) → length (spaces n) ≡ n
unfolding spaces
length-spaces zero = refl
length-spaces (suc n) = ap suc (length-spaces n)

-- Behind spaces an item is a plain line that names the plugin.
pub spaces-item :
    (n : ℕ) (item : Bytes)
    → IsItem item
    → (names_ndpi (spaces n ++ item) ≡ true)
      × (is_commented (spaces n ++ item) ≡ false)
      × (indent_width (spaces n ++ item) ≡ n)
spaces-item n item i =
    let blank = spaces-AllBlank n in
    let ink : StartsInk item = subst StartsInk (sym i.dashed) refl in
    let plain : has_prefix item hash ≡ false =
      ap (λ s. has_prefix s hash) i.dashed ∙ unfold has_prefix in refl in
    let ascii : IsAscii (spaces n ++ (item ++ [])) =
      All-append _ (spaces n) _ (spaces-IsAscii n)
        (subst IsAscii (sym (append-nil item)) i.ascii) in
    let key : normalize_key (spaces n ++ item) ≡ item =
      normalize_plain (spaces n ++ item) item
        (ap (λ s. trim_space (spaces n ++ s)) (sym (append-nil item))
          ∙ trim_space_core (spaces n) item [] ascii (AllSpace-of_blank (spaces n) blank) tt i.core)
        plain in
    (
      ap (λ s. contains s ndpi_so) key ∙ i.named,
      is_commented-append (spaces n) item blank ink ∙ plain,
      indent_width-leading_blanks (spaces n ++ item)
          ∙ (ap length (leading_blanks-append (spaces n) item blank ink) ∙ length-spaces n),
    )

pub trim_space-IsAscii : (s : Bytes) → IsAscii s → IsAscii (trim_space s)
trim_space-IsAscii s ascii = rw (trim_space-trimmed s ascii) (pieces-IsAscii s (trimmed s) ascii).1

contains-trim_space :
    (s p : Bytes) → IsAscii s → contains (trim_space s) p ≡ true → contains s p ≡ true
contains-trim_space s p ascii h =
    let t = trimmed s in
    ap (λ x. contains x p) t.splits
    ∙ contains-append_left t.before (t.core ++ t.after) p (
        contains-append_right t.core t.after p
          (ap (λ x. contains x p) (sym (trim_space-trimmed s ascii)) ∙ h))

-- What the key of a line holds, its text holds.
contains_key :
    (line p : Bytes)
    → IsAscii line
    → contains (normalize_key line) p ≡ true
    → contains (trim_space line) p ≡ true
contains_key line p ascii h = elim (Bool-cases (has_prefix (trim_space line) hash)) [
  | inr n ↦ ap (λ s. contains s p) (sym (normalize_plain line (trim_space line) refl n)) ∙ h
  | inl m ↦
      let u = trim_prefix (trim_space line) hash in
      let (a, e) = trim_prefix-hash (trim_space line) in
      let ascii_u : IsAscii u =
        (All-of_append _ a u (subst IsAscii e (trim_space-IsAscii line ascii))).1 in
      let inner : contains (trim_space u) p ≡ true =
        ap (λ s. contains s p) (sym (normalize_marked line (trim_space line) refl m)) ∙ h in
      ap (λ s. contains s p) e ∙ contains-append_left a u p (contains-trim_space u p ascii_u inner)
]

dash_front : (s : Bytes) → has_prefix s (codes "-") ≡ true → (y : Bytes) × (s ≡ b'-' ∷ y)
unfolding has_prefix
dash_front [] k = cc
dash_front (c ∷ y) k = (y, ground arith)

dashed-IsCore : (t : Bytes) → contains t ndpi_so ≡ true → IsCore t → IsCore (codes "- " ++ t)
unfolding contains has_prefix is_ascii_space
dashed-IsCore [] named core = cc
dashed-IsCore (c ∷ k) named core = marked-IsCore b'-' c (b' ' ∷ []) k refl core

-- The line that is made of one that names the plugin is an item.
pub as_item-IsItem : (line : Bytes) → IsAscii line → names_ndpi line ≡ true → IsItem (as_item line)
unfolding as_item
as_item-IsItem line ascii h =
    let t = trim_space line in
    let named : contains t ndpi_so ≡ true = contains_key line ndpi_so ascii h in
    let ascii_t = trim_space-IsAscii line ascii in
    let core : IsCore t = rw (trim_space-trimmed line ascii) (trimmed line).core_solid in
    elim (Bool-cases (has_prefix (trim_space t) (codes "-"))) [
      | inl m ↦
          let (y, e) =
            dash_front t
              (ap (λ s. has_prefix s (codes "-")) (sym (trim_space_idem line ascii)) ∙ m) in
          rw m (record { ascii = ascii_t; core = core; rest = y; dashed = e; named = named })
      | inr n ↦ rw n (record {
        ascii = (omega arith, (omega arith, ascii_t));
        core = dashed-IsCore t named core;
        rest = b' ' ∷ t;
        dashed = refl;
        named = contains-append_left (codes "- ") t ndpi_so named;
      })
    ]
