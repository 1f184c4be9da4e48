-- ===== src/Schema/Index/Laws.antt =====
-- What the construction of the mapping index of schema_mapping/resolver.py guarantees.
use armenian_energy_trading.Base.{
  String, Bool-cases, List, [], ◌∷◌, none, some, Option, ◌≡◌, refl, ap, subst, ◌∙◌, inl, inr, All,
  ◌==◌, text_comparable, Bool, true, false, if◌then◌else◌,
}
use armenian_energy_trading.Base.Dict.{get, put, get-put, get-put_absent}
use armenian_energy_trading.Orchestration.Text.{is_empty}
use armenian_energy_trading.Schema.{
  TextTools, Configured, refused, configured, ◌>>=◌, CanonicalFieldSpec,
}
use armenian_energy_trading.Schema.Names.{normalize_field_name}
use armenian_energy_trading.Schema.Index.{
  Lookup, IndexedField, register_over, register_exact, add_target, require_new, register_canonicals,
  register_aliases, index_fields, build_mapping_index,
}

pub >>=-configured :
    {A B : Type 0} (call : Configured A) (next : A → Configured B) {b : B}
    → (call >>= next) ≡ configured b
    → (a : A) × (call ≡ configured a) × (next a ≡ configured b)
>>=-configured (refused e) next h = cc
>>=-configured (configured a) next h = (a, refl, h)

pub configured-injective : {A : Type 0} {a b : A} → configured a ≡ configured b → a ≡ b
configured-injective h = cc

-- Every entry stays.
abbrev pub Extends : Lookup → Lookup → Type 0
Extends d d' =
    (token : String) (entry : String × String)
    → get token d ≡ some entry
    → get token d' ≡ some entry

-- Every entry is of a canonical name that satisfies the predicate.
abbrev pub Claimed : (String → Type 0) → Lookup → Type 0
Claimed P d = (token name text : String) → get token d ≡ some (name, text) → P name

-- The token leads to the name.
abbrev pub LeadsTo : Lookup → String → String → Type 0
LeadsTo d token name = (text : String) × (get token d ≡ some (name, text))

pub LeadsTo-Extends :
    (d d' : Lookup) (token name : String)
    → Extends d d'
    → LeadsTo d token name
    → LeadsTo d' token name
LeadsTo-Extends d d' token name e (text, found) = (text, e token (name, text) found)

-- What a step that returned has done to the table.
pub record Grows (P : String → Type 0) (d d' : Lookup) : Type 0 where
  pub extends : Extends d d'
  pub claimed : Claimed P d → Claimed P d'

Grows-refl : (P : String → Type 0) (d : Lookup) → Grows P d d
Grows-refl P d = record { extends = λ t e h. h; claimed = λ c. c }

Grows-trans : (P : String → Type 0) (a b c : Lookup) → Grows P a b → Grows P b c → Grows P a c
Grows-trans P a b c f g = record {
  extends = λ t e h. g.extends t e (f.extends t e h);
  claimed = λ h. g.claimed (f.claimed h);
}

abbrev name_of : String → Option (String × String) → String
name_of default none = default
name_of default (some (name, text)) = name

module _ (P : String → Type 0) where
  register_over-Grows :
      (o : Option (String × String)) (d : Lookup) (token name text : String) {d' : Lookup}
      → get token d ≡ o
      → P name
      → register_over o d token name text ≡ configured d'
      → Grows P d d' × LeadsTo d' token name
  register_over-Grows none d token name text {d'} absent p h =
      let e : put token (name, text) d ≡ d' = cc in
      subst (λ x. Grows P d x × LeadsTo x token name) e
        (
          record {
            extends = λ t v found. get-put_absent token t (name, text) v d absent found;
            claimed = kept;
          },
          (
            text,
            get-put token token (name, text) d
                ∙ rw ((text_comparable.same_iff token token).1 refl) refl,
          ),
        )
    where
      kept : Claimed P d → Claimed P (put token (name, text) d)
      kept c t n x found = elim (Bool-cases (token == t)) [
        | inl same ↦
            let new : some (name, text) ≡ some (n, x) =
              rw (get-put token t (name, text) d, same) at found in
            subst P (ap (name_of name) new) p
        | inr other ↦ c t n x (rw (get-put token t (name, text) d, other) at found)
      ]
  register_over-Grows (some (existing, t)) d token name text {d'} found p h =
      elim (Bool-cases (existing == name)) [
        | inl same ↦
            let e : d ≡ d' = cc (rw same at h) in
            let names : existing ≡ name = (text_comparable.same_iff existing name).0 same in
            subst (λ x. Grows P d x × LeadsTo x token name) e
              (Grows-refl P d, (t, found ∙ ap (λ n. some (n, t)) names))
        | inr other ↦ cc (rw other at h)
      ]

  register_exact-Grows :
      (d : Lookup) (token name text : String) {d' : Lookup}
      → P name
      → register_exact d token name text ≡ configured d'
      → Grows P d d' × LeadsTo d' token name
  unfolding register_exact
  register_exact-Grows d token name text p h =
      register_over-Grows (get token d) d token name text refl p h

Claimed-empty : (P : String → Type 0) → Claimed P []
unfolding get
Claimed-empty P t n x found = cc

module _ {F : Type 0} (tools : TextTools F) (P : String → Type 0) where
  -- A name or alias of a field, once normalized, is not empty and leads to the field.
  abbrev pub Registered : Lookup → String → String → Type 0
  Registered d name text =
      (is_empty (normalize_field_name tools text) ≡ false)
      × LeadsTo d (normalize_field_name tools text) name

  Registered-Extends :
      (d d' : Lookup) (name text : String)
      → Extends d d'
      → Registered d name text
      → Registered d' name text
  Registered-Extends d d' name text e (filled, found) =
      (filled, LeadsTo-Extends d d' (normalize_field_name tools text) name e found)

  nonempty :
      {A : Type 0} (b : Bool) (refusal result : Configured A) {a : A} {e : _}
      → refusal ≡ refused e
      → (if b then refusal else result) ≡ configured a
      → (b ≡ false) × (result ≡ configured a)
  nonempty true refusal result r h = cc
  nonempty false refusal result r h = (refl, h)

  register_canonicals-Grows :
      (seen : List (String × String)) (d : Lookup) (specs : List CanonicalFieldSpec) {d' : Lookup}
      → All (λ spec. P spec.canonical_name) specs
      → register_canonicals tools seen d specs ≡ configured d'
      → Grows P d d' × All (λ spec. Registered d' spec.canonical_name spec.canonical_name) specs
  unfolding register_canonicals
  register_canonicals-Grows seen d [] {d'} p h =
      let e : d ≡ d' = cc in (subst (Grows P d) e (Grows-refl P d), tt)
  register_canonicals-Grows seen d (spec ∷ specs) {d'} p h =
      let token = normalize_field_name tools spec.canonical_name in
      let (filled, h') = nonempty (is_empty token) _ _ refl h in
      let (larger, made, rest) = >>=-configured _ _ (fresh (get token seen) _ h') in
      let (first, found) =
        register_exact-Grows P d token spec.canonical_name spec.canonical_name p.0 made in
      let (later, others) =
        register_canonicals-Grows (put token spec.canonical_name seen) larger specs p.1 rest in
      (
        Grows-trans P d larger d' first later,
        ((filled, LeadsTo-Extends larger d' token spec.canonical_name later.extends found), others),
      )
    where
      fresh :
          (o : Option String) (result : Configured Lookup)
          → require_new tools o spec.canonical_name result ≡ configured d'
          → result ≡ configured d'
      fresh none result h = h
      fresh (some previous) result h = cc

  register_aliases-Grows :
      (name : String) (d : Lookup) (state : List String × List (String × String))
      (aliases : List String) {d' : Lookup} {targets : List (String × String)}
      → P name
      → register_aliases tools name d state aliases ≡ configured (d', targets)
      → Grows P d d' × All (Registered d' name) aliases
  unfolding register_aliases
  register_aliases-Grows name d (tokens, ts) [] {d'} {targets} p h =
      (subst (Grows P d) (ap (λ x. x.0) (configured-injective h)) (Grows-refl P d), tt)
  register_aliases-Grows name d state (alias ∷ aliases) {d'} {targets} p h =
      let token = normalize_field_name tools alias in
      let (filled, h') = nonempty (is_empty token) _ _ refl h in
      let (larger, made, rest) = >>=-configured _ _ h' in
      let (first, found) = register_exact-Grows P d token name alias p made in
      let (later, others) =
        register_aliases-Grows name larger (add_target token alias state) aliases p rest in
      (
        Grows-trans P d larger d' first later,
        ((filled, LeadsTo-Extends larger d' token name later.extends found), others),
      )

  -- The name and every alias of each field lead to it.
  abbrev pub AliasesOf : Lookup → CanonicalFieldSpec → Type 0
  AliasesOf d spec = All (Registered d spec.canonical_name) spec.aliases

  AliasesOf-Extends :
      (d d' : Lookup) (name : String) (aliases : List String)
      → Extends d d'
      → All (Registered d name) aliases
      → All (Registered d' name) aliases
  AliasesOf-Extends d d' name [] e h = tt
  AliasesOf-Extends d d' name (a ∷ aliases) e h =
      (Registered-Extends d d' name a e h.0, AliasesOf-Extends d d' name aliases e h.1)

  index_fields-Grows :
      (d : Lookup) (specs : List CanonicalFieldSpec) {fields : List IndexedField} {d' : Lookup}
      → All (λ spec. P spec.canonical_name) specs
      → index_fields tools d specs ≡ configured (fields, d')
      → Grows P d d' × All (AliasesOf d') specs × All (λ field. P field.spec.canonical_name) fields
  unfolding index_fields
  index_fields-Grows d [] {fields} {d'} p h =
      let e = configured-injective h in
      (
        subst (Grows P d) (ap (λ x. x.1) e) (Grows-refl P d),
        tt,
        subst (All (λ field. P field.spec.canonical_name)) (ap (λ x. x.0) e) tt,
      )
  index_fields-Grows d (spec ∷ specs) {fields} {d'} p h =
      let (registered, made, h1) = >>=-configured _ _ h in
      let (indexed, rest, h2) = >>=-configured _ _ h1 in
      let (first, aliases) =
        register_aliases-Grows spec.canonical_name d _ spec.aliases {d' = registered.0}
          {targets = registered.1} p.0 made in
      let (later, others, names) =
        index_fields-Grows (registered.0) specs {fields = indexed.0} {d' = indexed.1} p.1 rest in
      let e = configured-injective h2 in
      let larger : indexed.1 ≡ d' = ap (λ x. x.1) e in
      (
        subst (Grows P d) larger (Grows-trans P d (registered.0) (indexed.1) first later),
        subst (λ x. All (AliasesOf x) (spec ∷ specs)) larger
            (
              AliasesOf-Extends (registered.0) (indexed.1) spec.canonical_name spec.aliases
                  later.extends aliases,
              others,
            ),
        subst (All (λ field. P field.spec.canonical_name)) (ap (λ x. x.0) e) (p.0, names),
      )

  -- What an index that was built has.
  pub record Indexes (specs : List CanonicalFieldSpec) (fields : List IndexedField) (d : Lookup)
      : Type 0 where
    pub names : All (λ spec. Registered d spec.canonical_name spec.canonical_name) specs
    pub aliases : All (AliasesOf d) specs
    pub claimed : Claimed P d
    pub fields_claimed : All (λ field. P field.spec.canonical_name) fields

  RegisteredAll-Extends :
      (d d' : Lookup) (specs : List CanonicalFieldSpec)
      → Extends d d'
      → All (λ spec. Registered d spec.canonical_name spec.canonical_name) specs
      → All (λ spec. Registered d' spec.canonical_name spec.canonical_name) specs
  RegisteredAll-Extends d d' [] e h = tt
  RegisteredAll-Extends d d' (spec ∷ specs) e h = (
    Registered-Extends d d' spec.canonical_name spec.canonical_name e h.0,
    RegisteredAll-Extends d d' specs e h.1,
  )

  pub build_mapping_index-Indexes :
      (specs : List CanonicalFieldSpec) {fields : List IndexedField} {d : Lookup}
      → All (λ spec. P spec.canonical_name) specs
      → build_mapping_index tools specs ≡ configured (fields, d)
      → Indexes specs fields d
  unfolding build_mapping_index
  build_mapping_index-Indexes specs {fields} {d} p h =
      let (d0, made, rest) = >>=-configured _ _ h in
      let (first, names) = register_canonicals-Grows [] [] specs p made in
      let (later, aliases, claimed) = index_fields-Grows d0 specs p rest in
      record {
        names = RegisteredAll-Extends d0 d specs later.extends names;
        aliases = aliases;
        claimed = later.claimed (first.claimed (Claimed-empty P));
        fields_claimed = claimed;
      }
