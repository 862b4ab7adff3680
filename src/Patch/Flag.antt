-- ===== src/Patch/Flag.antt =====
-- What the flag of `ensurePluginsNDPI` tells of the lines.
use integration_suricata_n_d.Base.{
  ℕ, ◌+◌, Bool, true, false, Option, some, Option-cases, List, [], ◌∷◌, ◌++◌, ◌≡◌, ◌⊎◌, refl, sym,
  ap, ◌∙◌, subst, arith, Bytes, if◌then◌else◌, Bool-cases, inl, inr, All,
}
use integration_suricata_n_d.Line.{is_commented, uncomment_line}
use integration_suricata_n_d.Patch.Blocks.{is_key}
use integration_suricata_n_d.Patch.Plugins.{
  plugins, scan_plugins, ensure_in_block, ensure_found, ensure_plugins_ndpi, as_item,
}

scan_plugins-same :
    (indent at : ℕ) (lines : List Bytes)
    → (scan_plugins indent lines at).2 ≡ some false
    → (scan_plugins indent lines at).0 ≡ lines
unfolding scan_plugins
scan_plugins-same indent at [] h = refl
scan_plugins-same indent at (l ∷ lines) h = ground (arith, scan_plugins-same indent (at + 1) lines)

ensure_in_block-same :
    (indent : ℕ) (item : Bytes) (lines : List Bytes)
    → (ensure_in_block indent item lines).1 ≡ false
    → (ensure_in_block indent item lines).0 ≡ lines
unfolding ensure_in_block
ensure_in_block-same indent item lines h = ground (arith, scan_plugins-same indent 0 lines)

pub ensure_in_block_plain :
    (indent : ℕ) (item : Bytes) (lines : List Bytes)
    → (scan_plugins indent lines 0).0 ≡ lines
    → (scan_plugins indent lines 0).2 ≡ some false
    → ensure_in_block indent item lines ≡ (lines, false)
unfolding ensure_in_block
ensure_in_block_plain indent item lines same found =
    rw (found, ensure_in_block) (ap (λ (t : List Bytes). (t, false)) same)

-- The lines with one line of the key uncommented.
pub record HeaderUncommented (lines result : List Bytes) : Type 0 where
  pub before : List Bytes
  pub header : Bytes
  pub after : List Bytes
  pub lines_are : lines ≡ before ++ (header ∷ after)
  pub result_is : result ≡ before ++ (uncomment_line header ∷ after)
  pub is_header : is_key plugins header ≡ true
  pub commented : is_commented header ≡ true

further :
    (l : Bytes) {lines result : List Bytes}
    → HeaderUncommented lines result
    → HeaderUncommented (l ∷ lines) (l ∷ result)
further l h = record {
  before = l ∷ h.before;
  header = h.header;
  after = h.after;
  lines_are = ap (◌∷◌ l) h.lines_are;
  result_is = ap (◌∷◌ l) h.result_is;
  is_header = h.is_header;
  commented = h.commented;
}

ensure_found-unchanged :
    (indent : ℕ) (item : Bytes) (lines result : List Bytes)
    → ensure_found indent item lines ≡ some (result, false)
    → (result ≡ lines) ⊎ HeaderUncommented lines result
unfolding ensure_found
ensure_found-unchanged indent item [] result h = ground (arith, h)
ensure_found-unchanged indent item (l ∷ lines) result h = elim (Bool-cases (is_key plugins l)) [
  | inr e ↦ elim (Option-cases (ensure_found indent item lines)) [
    | inl n ↦ absurd (ground (arith, rw (n, ensure_found) at (rw (e, ensure_found) at h)))
    | inr ((after, changed), f) ↦
        let h' : some (l ∷ after, changed) ≡ some (result, false) =
          rw (f, ensure_found) at (rw (e, ensure_found) at h) in
        let is_result : l ∷ after ≡ result = ground (arith, h') in
        let flag : changed ≡ false = ground (arith, h') in
        elim (ensure_found-unchanged indent item lines after
          (f ∙ ap (λ (b : Bool). some (after, b)) flag)) [
            | inl same ↦ inl (sym is_result ∙ ap (◌∷◌ l) same)
            | inr u ↦ inr (subst (HeaderUncommented (l ∷ lines)) is_result (further l u))
          ]
  ]
  | inl e ↦
      let first = if is_commented l then uncomment_line l else l in
      let (behind, changed) = ensure_in_block indent item lines in
      let h' : some (first ∷ behind, changed) ≡ some (result, false) = rw (e, ensure_found) at h in
      let is_result : first ∷ behind ≡ result = ground (arith, h') in
      let flag : changed ≡ false = ground (arith, h') in
      let same = ensure_in_block-same indent item lines flag in
      elim (Bool-cases (is_commented l)) [
        | inr k ↦ inl (sym is_result ∙ rw k (ap (◌∷◌ l) same))
        | inl k ↦ inr record {
          before = [];
          header = l;
          after = lines;
          lines_are = refl;
          result_is = sym is_result ∙ rw k (ap (◌∷◌ (uncomment_line l)) same);
          is_header = e;
          commented = k;
        }
      ]
]

pub ensure_found_commented :
    (before after block : List Bytes) (header : Bytes) (indent k : ℕ) (item : Bytes)
    → All (λ m. is_key plugins m ≡ false) before
    → is_key plugins header ≡ true
    → is_commented header ≡ true
    → scan_plugins indent after 0 ≡ (block, k, some false)
    → ensure_found indent item (before ++ (header ∷ after))
      ≡ some (before ++ (uncomment_line header ∷ after), false)
unfolding ensure_found
ensure_found_commented [] after block header indent k item others is_header commented found =
    let same =
      scan_plugins-same indent 0 after (ap (λ (r : List Bytes × ℕ × Option Bool). r.2) found) in
    let flag = ap (λ (r : List Bytes × ℕ × Option Bool). r.2) found in
    rw (is_header, commented)
      (ap (λ (r : List Bytes × Bool). some (uncomment_line header ∷ r.0, r.1))
        (ensure_in_block_plain indent item after same flag))
ensure_found_commented (m ∷ before) after block header indent k item others is_header commented
      found =
    rw (others.0) (
      rw
        (ensure_found_commented before after block header indent k item others.1 is_header commented
          found)
        refl)

-- Where the flag says that nothing was changed, the lines are the same, or they are the same but for a commented line of
-- the key, which is uncommented and not reported.
ensure_plugins_ndpi_unchanged :
    (lines result : List Bytes) (indent : ℕ) (line : Bytes)
    → ensure_plugins_ndpi lines indent line ≡ (result, false)
    → (result ≡ lines) ⊎ HeaderUncommented lines result
unfolding ensure_plugins_ndpi
ensure_plugins_ndpi_unchanged lines result indent line h =
    elim (Option-cases (ensure_found indent (as_item line) lines)) [
      | inl n ↦ absurd (ground (arith, rw (n, ensure_plugins_ndpi) at h))
      | inr (r, f) ↦
          ensure_found-unchanged indent (as_item line) lines result
            (f ∙ ap some (rw (f, ensure_plugins_ndpi) at h))
    ]
