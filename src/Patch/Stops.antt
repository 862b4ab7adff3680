-- ===== src/Patch/Stops.antt =====
-- Where a block ends, and when two are the same: `integration/patch_suricata_config.go`.
use integration_suricata_n_d.Base.{
  ℕ, ◌≤◌, true, false, List, [], ◌∷◌, ◌++◌, ◌≡◌, ◌↔◌, refl, ap, arith, Bytes, Bool-cases, inl, inr,
  All, bytes_eq_iff,
}
use integration_suricata_n_d.Line.{indent_width}
use integration_suricata_n_d.Patch.Blocks.{is_key, goes_on, block_body, slice_equal}
use integration_suricata_n_d.Patch.Ranges.{block_rest, block_body_step}

-- The lines are a block of the key: its line, and lines that go on from it.
abbrev pub IsBlock : Bytes → List Bytes → Type 0
IsBlock key [] = ⊥
IsBlock key (l ∷ body) = (is_key key l ≡ true) × All (λ m. goes_on (indent_width l) m ≡ true) body

-- The lines end a block of this indentation: there is none, or the first does not go on.
abbrev pub Stops : ℕ → List Bytes → Type 0
Stops base [] = Unit {0}
Stops base (l ∷ lines) = goes_on base l ≡ false

pub block_rest-Stops : (base : ℕ) (lines : List Bytes) → Stops base (block_rest base lines)
unfolding block_rest
block_rest-Stops base [] = tt
block_rest-Stops base (l ∷ lines) = elim (Bool-cases (goes_on base l)) [
  | inl e ↦ rw e (block_rest-Stops base lines)
  | inr e ↦ rw e e
]

pub Stops-mono :
    (base base' : ℕ) (lines : List Bytes) → base ≤ base' → Stops base lines → Stops base' lines
Stops-mono base base' [] h s = tt
Stops-mono base base' (l ∷ lines) h s = ground arith

pub block_body-append :
    (base : ℕ) (body rest : List Bytes)
    → All (λ l. goes_on base l ≡ true) body
    → Stops base rest
    → block_body base (body ++ rest) ≡ body
block_body-append base [] [] h s = unfold block_body in refl
block_body-append base [] (l ∷ rest) h s = rw block_body_step (rw s)
block_body-append base (m ∷ body) rest h s =
    rw block_body_step (rw h.0 (ap (◌∷◌ m) (block_body-append base body rest h.1 s)))

pub slice_equal_iff : (a b : List Bytes) → (slice_equal a b ≡ true) ↔ (a ≡ b)
unfolding slice_equal
slice_equal_iff (x ∷ a) (y ∷ b) = ground (arith, slice_equal_iff a b, bytes_eq_iff x y)
slice_equal_iff _ _ = ground arith
