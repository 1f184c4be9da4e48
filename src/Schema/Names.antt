-- ===== src/Schema/Names.antt =====
-- infrastructure/adapters/structured/schema_mapping/normalization.py
use Prim.Native.Char.{code}
use armenian_energy_trading.Base.{String, List, [], ◌∷◌, if◌then◌else◌}
use armenian_energy_trading.Orchestration.Text.{before, is_space, is_empty, strip}
use armenian_energy_trading.Schema.{TextTools}

-- `str.split()`: the word that a text begins with, perhaps empty, and the later words.
abbrev pub add_word : String → List String → List String
add_word word words = if is_empty word then words else word ∷ words

abbrev pub split_word : String → String × List String
split_word String.[] = ("", [])
split_word (String.◌∷◌ c s) =
    let (word, words) = split_word s in
    if is_space (code c) then ("", add_word word words) else (String.◌∷◌ c word, words)

abbrev pub split : String → List String
split s = let (word, words) = split_word s in add_word word words

-- `" ".join(·)`
abbrev pub join : List String → String
join [] = ""
join (word ∷ []) = word
join (word ∷ next ∷ words) = before word (before " " (join (next ∷ words)))

module _ {F : Type 0} (tools : TextTools F) where
  -- The loop over the characters, and `"".join`.
  abbrev pub separate : String → String
  separate String.[] = ""
  separate (String.◌∷◌ c s) =
      let rest = separate s in
      if tools.is_letter_number_or_mark c then String.◌∷◌ c rest else before " " rest

  unfoldable pub normalize_field_name : String → String
  unfolding strip
  normalize_field_name value = join (split (separate (tools.casefold (strip (tools.nfkc value)))))
