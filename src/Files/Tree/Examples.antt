-- ===== src/Files/Tree/Examples.antt =====
-- `mkdir /a`, then `mkdir /a/b`.
use aevros.Base.{ℕ, true, List, [], ◌∷◌}
use aevros.Files.Tree.Make.{Strdup}
use aevros.Files.Tree.Made.{Made}

abbrev a : List ℕ
a = b'a' ∷ []

abbrev b : List ℕ
b = b'b' ∷ []

abbrev copies : Strdup
copies = record { copied = true; text_at_null = [] }
