-- ===== src/Text/Parts.antt =====
-- Splitting a joined text gives its parts back.
use smartproxy.Common.{ℕ, ◌≡◌, ◌≢◌, refl, List, [], ◌∷◌, ◌++◌, Bytes, arith, All}
use smartproxy.Text.{split, join, glue}

abbrev pub Lacks : ℕ → Bytes → Type 0
Lacks sep = All (λ c. c ≢ sep)

split-last : (sep : ℕ) (p : Bytes) → Lacks sep p → split sep (p ++ []) ≡ p ∷ []
unfolding split
split-last sep [] h = refl
split-last sep (c ∷ p) (hc, h) = ground (arith, split-last sep p h)

split_at : (sep : ℕ) (p s : Bytes) → Lacks sep p → split sep (p ++ sep ∷ s) ≡ p ∷ split sep s
unfolding split
split_at sep [] s h = ground arith
split_at sep (c ∷ p) s (hc, h) = ground (arith, split_at sep p s h)

split-glue :
    (sep : ℕ) (p : Bytes) (ps : List Bytes)
    → Lacks sep p
    → All (Lacks sep) ps
    → split sep (p ++ glue sep ps) ≡ p ∷ ps
unfolding glue
split-glue sep p [] h hs = split-last sep p h
split-glue sep p (q ∷ ps) h (hq, hs) =
    rw (split_at sep p (q ++ glue sep ps) h, split-glue sep q ps hq hs) refl

pub split-join :
    (sep : ℕ) (p : Bytes) (ps : List Bytes)
    → Lacks sep p
    → All (Lacks sep) ps
    → split sep (join sep (p ∷ ps)) ≡ p ∷ ps
unfolding join
split-join sep p ps h hs = split-glue sep p ps h hs
