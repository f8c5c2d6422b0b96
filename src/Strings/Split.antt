-- ===== src/Strings/Split.antt =====
-- `split` of Strings.antt and joining with the separator.
use parch_testbench.Prelude.{
  Bool-cases, inl, inr, ==_refl, ◌==◌, ℕ, ◌≡◌, ◌≢◌, refl, ap, List, [], ◌∷◌, ◌++◌, Text, Lacks, All,
  arith,
}
use parch_testbench.Strings.{split, non_empty, onto_first}

-- The words with the separator between them.
unfoldable pub join : ℕ → List Text → Text
join c [] = []
join c (w ∷ []) = w
join c (w ∷ v ∷ vs) = w ++ c ∷ join c (v ∷ vs)

pub split-append : (c : ℕ) (w t : Text) → Lacks c w → split c (w ++ c ∷ t) ≡ w ∷ split c t
unfolding split
split-append c [] t h = ground arith
split-append c (x ∷ w) t h = ground (arith, split-append c w t h.1, h.0)

split-Lacks : (c : ℕ) (w : Text) → Lacks c w → split c w ≡ w ∷ []
unfolding split
split-Lacks c [] h = refl
split-Lacks c (x ∷ w) h = ground (arith, split-Lacks c w h.1, h.0)

pub split-join :
    (c : ℕ) (w : Text) (ws : List Text)
    → All (Lacks c) (w ∷ ws)
    → split c (join c (w ∷ ws)) ≡ w ∷ ws
unfolding join
split-join c w [] h = split-Lacks c w h.0
split-join c w (v ∷ vs) h =
    rw (split-append c w (join c (v ∷ vs)) h.0) (ap (λ l. w ∷ l) (split-join c v vs h.1))

pub non_empty_id : (ws : List Text) → All (λ w. w ≢ []) ws → non_empty ws ≡ ws
unfolding non_empty
non_empty_id [] h = refl
non_empty_id ([] ∷ ws) h = absurd (h.0 refl)
non_empty_id ((x ∷ w) ∷ ws) h = ap (λ l. (x ∷ w) ∷ l) (non_empty_id ws h.1)

All-onto_first :
    {P : Text → Type 0} (x : ℕ) (ps : List Text)
    → ((p : Text) → P p → P (x ∷ p))
    → P []
    → All P ps
    → All P (onto_first x ps)
All-onto_first x [] f e h = (f [] e, tt)
All-onto_first x (p ∷ ps) f e h = (f p h.0, h.1)

-- No piece of a split holds the separator.
pub split_pieces : (c : ℕ) (s : Text) → All (Lacks c) (split c s)
unfolding split
split_pieces c [] = (tt, tt)
split_pieces c (x ∷ s) = elim (Bool-cases (x == c)) [
  | inl e ↦ rw e (tt, split_pieces c s)
  | inr e ↦ rw e (
      All-onto_first x (split c s)
        (λ p h. ((λ same. absurd (ground (arith, ==_refl c, e, same))), h)) tt (split_pieces c s))
]

pub All-non_empty :
    (P : Text → Type 0) (ps : List Text) → All P ps → All (λ p. (p ≢ []) × P p) (non_empty ps)
unfolding non_empty
All-non_empty P [] h = tt
All-non_empty P ([] ∷ ps) h = All-non_empty P ps h.1
All-non_empty P ((x ∷ p) ∷ ps) h = (((λ e. cc), h.0), All-non_empty P ps h.1)
