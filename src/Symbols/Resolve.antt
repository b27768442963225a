-- ===== src/Symbols/Resolve.antt =====
-- Name resolution: a symbol and its quoted spelling resolve alike (SMT-LIB 2.6, 3.1).
use smtlibparser.Prelude.{
  ℕ, ◌-◌, ◌≡◌, refl, ap, ◌∙◌, ◌⊎◌, Option, none, true, false, [], ◌∷◌, ◌++◌, Bytes, arith, length,
  length-append, take, get_or, inl, inr,
}
use smtlibparser.Dict.{Dict, find}
use smtlibparser.Symbols.{
  SymbolManager, ResolveScope, is_quoted, other_spelling, inner, or_null, find_either_spelling,
  resolve_symbol, resolve_term, resolve_fun, resolve_sort,
}

abbrev pub quoted : Bytes → Bytes
quoted name = (b'|' ∷ name) ++ b'|' ∷ []

get_or_last : (xs : Bytes) (y : ℕ) → get_or (xs ++ y ∷ []) (length xs) 0 ≡ y
get_or_last [] y = refl
get_or_last (x ∷ xs) y = get_or_last xs y

take-append_length : (xs ys : Bytes) → take (length xs) (xs ++ ys) ≡ xs
take-append_length [] ys = refl
take-append_length (x ∷ xs) ys = ap (λ t. x ∷ t) (take-append_length xs ys)

-- Quoting a name that is not empty is seen as quoting, and undone.
is_quoted-quoted : (c : ℕ) (name : Bytes) → is_quoted (quoted (c ∷ name)) ≡ true
unfolding is_quoted
is_quoted-quoted c name = ground (arith, length-append name (b'|' ∷ []), get_or_last name b'|')

inner-quoted : (name : Bytes) → inner (quoted name) ≡ name
unfolding inner
inner-quoted name =
    let e : length (quoted name) - 2 ≡ length name =
      omega (arith, length-append name (b'|' ∷ [])) in
    ap (λ n. take n (name ++ b'|' ∷ [])) e ∙ take-append_length name (b'|' ∷ [])

-- A name is quoted exactly one way, so the two spellings are each other's other spelling.
other_spelling-quoted : (c : ℕ) (name : Bytes) → other_spelling (quoted (c ∷ name)) ≡ c ∷ name
unfolding other_spelling
other_spelling-quoted c name = rw (is_quoted-quoted c name) (inner-quoted (c ∷ name))

other_spelling_plain : (name : Bytes) → is_quoted name ≡ false → other_spelling name ≡ quoted name
unfolding other_spelling
other_spelling_plain name h = rw h

-- No map holds a name in both spellings.
abbrev pub IsUnambiguous {ℓ} : {V : Type ℓ} → Dict V → Bytes → Type ℓ
IsUnambiguous m name = (find m name ≡ none) ⊎ (find m (quoted name) ≡ none)

-- The maps that a resolution reads hold the name in one spelling at most.
pub record IsUnambiguousIn {Node Sort : Type 0} (name : Bytes) (s : SymbolManager Node Sort)
    : Type 0 where
  pub in_placeholders : IsUnambiguous s.placeholder_var_names name
  pub in_lets : IsUnambiguous s.let_key_map name
  pub in_funs : IsUnambiguous s.fun_key_map name
  pub in_fun_vars : IsUnambiguous s.fun_var_map name
  pub in_quant_vars : IsUnambiguous s.quant_var_map name
  pub in_vars : IsUnambiguous s.var_names name
  pub in_sorts : IsUnambiguous s.sort_key_map name

module _ (c : ℕ) (name : Bytes) (plain : is_quoted (c ∷ name) ≡ false) where
  find_either_spelling-quoted {ℓ} :
      {V : Type ℓ} (m : Dict (Option V))
      → IsUnambiguous m (c ∷ name)
      → find_either_spelling m (quoted (c ∷ name)) ≡ find_either_spelling m (c ∷ name)
  unfolding find_either_spelling or_null
  find_either_spelling-quoted m (inl h) =
      ground (arith, other_spelling-quoted c name, other_spelling_plain (c ∷ name) plain)
  find_either_spelling-quoted m (inr h) =
      ground (arith, other_spelling-quoted c name, other_spelling_plain (c ∷ name) plain)

  -- For a name that is not empty and not itself quoted, resolving |name| gives what resolving name
  -- gives, as a symbol, a term, a function and a sort, where no map holds both spellings.
  pub resolve-quoted :
      {Node Sort : Type 0} (s : SymbolManager Node Sort) (scope : ResolveScope)
      → IsUnambiguousIn (c ∷ name) s
      → (resolve_symbol s (quoted (c ∷ name)) scope ≡ resolve_symbol s (c ∷ name) scope)
        × (resolve_term s (quoted (c ∷ name)) scope ≡ resolve_term s (c ∷ name) scope)
        × (resolve_fun s (quoted (c ∷ name)) ≡ resolve_fun s (c ∷ name))
        × (resolve_sort s (quoted (c ∷ name)) ≡ resolve_sort s (c ∷ name))
  unfolding resolve_symbol resolve_term resolve_fun resolve_sort
  resolve-quoted s scope u =
      let placeholders = find_either_spelling-quoted s.placeholder_var_names u.in_placeholders in
      let lets = find_either_spelling-quoted s.let_key_map u.in_lets in
      let funs = find_either_spelling-quoted s.fun_key_map u.in_funs in
      let fun_vars = find_either_spelling-quoted s.fun_var_map u.in_fun_vars in
      let quant_vars = find_either_spelling-quoted s.quant_var_map u.in_quant_vars in
      let vars = find_either_spelling-quoted s.var_names u.in_vars in
      let sorts = find_either_spelling-quoted s.sort_key_map u.in_sorts in
      (
        rw (placeholders, lets, funs, fun_vars, quant_vars, vars) refl,
        rw (placeholders, lets, fun_vars, quant_vars, vars) refl,
        rw (funs, fun_vars) refl,
        sorts,
      )
