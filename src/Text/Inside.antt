-- ===== src/Text/Inside.antt =====
-- `Contains`: what a text contains, every text around it contains.
use integration_suricata_n_d.Base.{true, [], ◌∷◌, ◌++◌, ◌≡◌, refl, arith, Bytes}
use integration_suricata_n_d.Text.SearchDefs.{has_prefix, contains}

has_prefix-append : (s b p : Bytes) → has_prefix s p ≡ true → has_prefix (s ++ b) p ≡ true
unfolding has_prefix
has_prefix-append s b [] h = refl
has_prefix-append [] b (c ∷ p) h = cc
has_prefix-append (x ∷ s) b (c ∷ p) h = ground (arith, has_prefix-append s b p)

pub contains-append_left : (a s p : Bytes) → contains s p ≡ true → contains (a ++ s) p ≡ true
unfolding contains
contains-append_left [] s p h = h
contains-append_left (x ∷ a) s p h = ground (arith, contains-append_left a s p h)

pub contains-append_right : (s b p : Bytes) → contains s p ≡ true → contains (s ++ b) p ≡ true
unfolding contains has_prefix
contains-append_right [] [] p h = h
contains-append_right [] (c ∷ b) [] h = refl
contains-append_right [] (y ∷ b) (c ∷ p) h = cc
contains-append_right (x ∷ s) b p h =
    ground (arith, contains-append_right s b p, has_prefix-append (x ∷ s) b p)
