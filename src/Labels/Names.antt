-- ===== src/Labels/Names.antt =====
-- The names of dimensions: what a valid one is (labels.rs), and the two forms in which Python
-- code may give them (labels.py).
use Prim.Native.Char.{code}
use aml_storage.Prelude.{ℕ, String, Bool, false, ◌&&◌, ◌||◌, not, List, [], ◌∷◌, nat_beq, leb, all}

-- The code points of a text.
abbrev pub codes : String → List ℕ
codes String.[] = []
codes (String.◌∷◌ c s) = code c ∷ codes s

is_ascii_digit : ℕ → Bool
is_ascii_digit c = leb b'0' c && leb c b'9'

is_ascii_alphanumeric : ℕ → Bool
unfolding is_ascii_digit
is_ascii_alphanumeric c =
    is_ascii_digit c || (leb b'a' c && leb c b'z') || (leb b'A' c && leb c b'Z')

is_name_character : ℕ → Bool
unfolding is_ascii_alphanumeric
is_name_character c = is_ascii_alphanumeric c || nat_beq c b'_'

valid_codes : List ℕ → Bool
unfolding is_name_character
valid_codes [] = false
valid_codes (c ∷ cs) = not (is_ascii_digit c) && all is_name_character (c ∷ cs)

unfoldable pub is_valid_label_name : String → Bool
unfolding valid_codes
is_valid_label_name name = valid_codes (codes name)

-- `Union[str, Sequence[str]]`
pub data NamesArg : Type 0 where
  text : String → NamesArg
  sequence : List String → NamesArg

unfoldable pub normalize_names_type : NamesArg → List String
normalize_names_type (text String.[]) = []
normalize_names_type (text (String.◌∷◌ c s)) = String.◌∷◌ c s ∷ []
normalize_names_type (sequence names) = names
