-- ===== src/Text.antt =====
-- Text as the list of its character codes, with the searches and comparisons that the code makes.
-- Every text that the system keeps in a key or compares is ASCII once it is validated.
mod Search
mod Equality
mod Decimal
unfoldable pub use Search.*
unfoldable pub use Equality.*
unfoldable pub use Decimal.*
use Prim.Native.Char.{code}
use Prim.Native.String.{String}
use bookipi_technical_test.Prelude.{ℕ, List, [], ◌∷◌}

abbrev pub Text : Type 0
Text = List ℕ

-- The codes of a literal.
abbrev pub codes : String → Text
codes String.[] = []
codes (String.◌∷◌ c s) = code c ∷ codes s
