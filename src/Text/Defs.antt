-- ===== src/Text/Defs.antt =====
-- Go strings as lists of code points or bytes.
use teleporter.Base.{ℕ, List, [], ◌∷◌, ◌≢◌}

abbrev pub Text : Type 0
Text = List ℕ

-- `sep` does not occur.
abbrev pub Lacks : ℕ → Text → Type 0
Lacks sep [] = Unit
Lacks sep (c ∷ s) = (c ≢ sep) × Lacks sep s
