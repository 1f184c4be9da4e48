-- ===== src/Orchestration/Text.antt =====
-- Texts one after the other, and Python's `str.strip`, on which the checks of identifiers rest.
use Prim.Native.Char.{code}
use armenian_energy_trading.Base.{
  ℕ, String, Bool, true, false, ◌&&◌, ◌||◌, ◌≡◌, refl, ap, ◌∙◌, leb, nat_beq, if◌then◌else◌,
  Bool-cases, inl, inr,
}

-- A text, then another.
abbrev pub before : String → String → String
before String.[] t = t
before (String.◌∷◌ c s) t = String.◌∷◌ c (before s t)

-- `str.isspace` of a character, by its code point.
unfoldable pub is_space : ℕ → Bool
is_space c =
    (leb 9 c && leb c 13)
    || (leb 28 c && leb c 32)
    || nat_beq c 133
    || nat_beq c 160
    || nat_beq c 5760
    || (leb 8192 c && leb c 8202)
    || nat_beq c 8232
    || nat_beq c 8233
    || nat_beq c 8239
    || nat_beq c 8287
    || nat_beq c 12288

abbrev pub is_empty : String → Bool
is_empty String.[] = true
is_empty (String.◌∷◌ c s) = false

unfoldable pub lstrip : String → String
lstrip String.[] = ""
lstrip (String.◌∷◌ c s) = if is_space (code c) then lstrip s else String.◌∷◌ c s

unfoldable pub rstrip : String → String
rstrip String.[] = ""
rstrip (String.◌∷◌ c s) =
    let rest = rstrip s in if is_space (code c) && is_empty rest then "" else String.◌∷◌ c rest

unfoldable pub strip : String → String
strip s = rstrip (lstrip s)

rstrip_idem : (s : String) → rstrip (rstrip s) ≡ rstrip s
unfolding rstrip
rstrip_idem String.[] = refl
rstrip_idem (String.◌∷◌ c s) = elim (Bool-cases (is_space (code c) && is_empty (rstrip s))) [
  | inl blank ↦ rw blank refl
  | inr kept ↦ rw (kept, rstrip_idem s, kept) refl
]

-- Either empty, or begun by a character that is no space.
abbrev StartsClean : String → Type 0
StartsClean String.[] = Unit
StartsClean (String.◌∷◌ c s) = is_space (code c) ≡ false

lstrip-StartsClean : (s : String) → StartsClean (lstrip s)
unfolding lstrip
lstrip-StartsClean String.[] = tt
lstrip-StartsClean (String.◌∷◌ c s) = elim (Bool-cases (is_space (code c))) [
  | inl blank ↦ rw blank (lstrip-StartsClean s)
  | inr kept ↦ rw kept kept
]

rstrip-StartsClean : (s : String) → StartsClean s → StartsClean (rstrip s)
unfolding rstrip
rstrip-StartsClean String.[] h = tt
rstrip-StartsClean (String.◌∷◌ c s) h = rw h h

StartsClean-lstrip : (s : String) → StartsClean s → lstrip s ≡ s
unfolding lstrip
StartsClean-lstrip String.[] h = refl
StartsClean-lstrip (String.◌∷◌ c s) h = rw h refl

pub strip_idem : (s : String) → strip (strip s) ≡ strip s
unfolding strip
strip_idem s =
    ap rstrip (StartsClean-lstrip _ (rstrip-StartsClean (lstrip s) (lstrip-StartsClean s)))
    ∙ rstrip_idem (lstrip s)
