-- ===== src/Text/Strings/Parts.antt =====
-- Parts of string literals: strPrefixof, strContains and strReplace.
use smtlibparser.Prelude.{
  ℕ, ◌+◌, ◌≡◌, refl, sym, ap, ◌∙◌, Bool, true, false, ltb, [], ◌∷◌, ◌++◌, if◌then◌else◌, Option,
  some, none, Bytes, take, drop, length, length-take, ◌≤◌, same, arith, ◌⊎◌, inl, inr,
}
use smtlibparser.Text.Strings.{
  clean, with_quotes, begins, find_text, str_prefixof, str_contains, str_replace, replaced_at,
}
use smtlibparser.Text.Strings.Search.{begins_lem, find_lem, find_first}

prefix_begins :
    (a b : Bytes)
    → (if ltb (length b) (length a) then false else same (take (length a) b) a) ≡ begins a b
unfolding same
prefix_begins [] b = ground arith
prefix_begins (c ∷ a) [] = ground arith
prefix_begins (c ∷ a) (d ∷ b) = ground (arith, prefix_begins a b)

begins-find_text : (t s : Bytes) → begins t s ≡ true → find_text t s ≡ some 0
unfolding find_text
begins-find_text t [] h = cc h
begins-find_text t (c ∷ s) h = cc h

found : Option ℕ → Bool
found o = elim o [ some p ↦ true | none ↦ false ]

-- The text is cut nowhere before the end of `before`.
abbrev pub FirstCut : Bytes → Bytes → Bytes → Type 0
FirstCut s t before = (b a : Bytes) → clean s ≡ b ++ (clean t ++ a) → length before ≤ length b

first_place :
    (s t b a : Bytes) (p : ℕ)
    → clean s ≡ b ++ (clean t ++ a)
    → find_text (clean t) (clean s) ≡ some p
    → p ≤ length b
first_place s t b a p h e =
    let (q, f, l) = find_first (clean t) b a in
    let same_place : some q ≡ some p = cc (h, e, f) in
    let q_is_p : q ≡ p = cc same_place in omega (arith, l, q_is_p)

not_there :
    (s t b a : Bytes) → clean s ≡ b ++ (clean t ++ a) → find_text (clean t) (clean s) ≡ none → ⊥
not_there s t b a h e = let (q, f, l) = find_first (clean t) b a in absurd (cc (h, e, f))

cut_at :
    (s t u : Bytes) (o : Option ℕ)
    → find_text (clean t) (clean s) ≡ o
    → ((found o ≡ false)
        × ((before after : Bytes) → clean s ≡ before ++ (clean t ++ after) → ⊥)
        × ((elim o as (λ o. Bytes) [
          | some p ↦ with_quotes (replaced_at (clean s) (clean t) (clean u) p)
          | none ↦ s
        ])
            ≡ s))
      ⊎ ((before after : Bytes) × (found o ≡ true)
          × (clean s ≡ before ++ (clean t ++ after))
          × FirstCut s t before
          × ((elim o as (λ o. Bytes) [
            | some p ↦ with_quotes (replaced_at (clean s) (clean t) (clean u) p)
            | none ↦ s
          ])
              ≡ with_quotes (before ++ (clean u ++ after))))
unfolding found
cut_at s t u none e = inl (refl, λ b a h. not_there s t b a h e, refl)
cut_at s t u (some p) e =
    let (cut, room) = find_lem (clean t) (clean s) p e in
    inr (
      take p (clean s),
      drop (p + length (clean t)) (clean s),
      refl,
      cut,
      λ b a h. ground (arith, first_place s t b a p h e, length-take p (clean s)),
      refl,
    )

-- A text contains each of its prefixes, and each text that strPrefixof accepts starts it.
pub str_prefixof-str_contains :
    (t s : Bytes)
    → str_prefixof t s ≡ true
    → (str_contains s t ≡ true) × (clean s ≡ clean t ++ drop (length (clean t)) (clean s))
unfolding str_prefixof str_contains found
str_prefixof-str_contains t s h =
    let b = sym (prefix_begins (clean t) (clean s)) ∙ h in
    (ap found (begins-find_text (clean t) (clean s) b), begins_lem (clean t) (clean s) b)

-- strReplace replaces the first occurrence. Either strContains is false, the text without its quotes
-- has no occurrence of the other, and strReplace gives the text as it is; or strContains is true,
-- and strReplace gives, in quotes, the text cut at the earliest occurrence with the replacement there.
pub str_replace_lem :
    (s t u : Bytes)
    → ((str_contains s t ≡ false)
        × ((before after : Bytes) → clean s ≡ before ++ (clean t ++ after) → ⊥)
        × (str_replace s t u ≡ s))
      ⊎ ((before after : Bytes) × (str_contains s t ≡ true)
          × (clean s ≡ before ++ (clean t ++ after))
          × FirstCut s t before
          × (str_replace s t u ≡ with_quotes (before ++ (clean u ++ after))))
unfolding str_replace str_contains found
str_replace_lem s t u = cut_at s t u (find_text (clean t) (clean s)) refl
