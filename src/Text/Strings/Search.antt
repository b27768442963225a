-- ===== src/Text/Strings/Search.antt =====
-- Searching and replacing in string literals.
use mathlib.Core.Path.{subst}
use mathlib.Core.Option
use smtlibparser.Prelude.{
  ℕ, zero, suc, ◌+◌, ◌≤◌, ◌≡◌, refl, ap, ◌∙◌, by_if, true, ◌==◌, ltb, [], ◌∷◌, ◌++◌, Option, some,
  none, Bytes, take, drop, length, length-append, length-drop, &&_parts, arith, Bool-cases, inl,
  inr,
}
use smtlibparser.Text.Strings.{begins, find_text, find_from}

-- What begins a text starts it, and is not longer.
pub begins_lem : (t s : Bytes) → begins t s ≡ true → s ≡ t ++ drop (length t) s
begins_lem [] s h = refl
begins_lem (c ∷ t) [] h = cc
begins_lem (c ∷ t) (d ∷ s) h =
    let (e, b) = &&_parts (c == d) (begins t s) h in
    let same_byte : d ≡ c = ground arith in
    ap (λ x. x ∷ s) same_byte ∙ ap (λ s. c ∷ s) (begins_lem t s b)

abbrev pub FoundAt : Bytes → Bytes → ℕ → Type 0
FoundAt t s p = (s ≡ take p s ++ (t ++ drop (p + length t) s)) × (p + length t ≤ length s)

shorter : (t s : Bytes) → s ≡ t ++ drop (length t) s → length t ≤ length s
shorter t s h = let e = ap length h ∙ length-append t (drop (length t) s) in omega (arith, e)

at_start : (t s : Bytes) (p : ℕ) → begins t s ≡ true → some 0 ≡ some p → FoundAt t s p
at_start t s zero h e =
    let n : length t ≡ 0 + length t = omega arith in
    (begins_lem t s h ∙ ap (λ n. t ++ drop n s) n, omega (arith, shorter t s (begins_lem t s h)))
at_start t s (suc p) h e = cc

later : (t s : Bytes) (c p : ℕ) → FoundAt t s p → FoundAt t (c ∷ s) (suc p)
later t s c p (e, b) =
    let n : suc (p + length t) ≡ suc p + length t = omega arith in
    (ap (λ s. c ∷ s) e ∙ ap (λ n. c ∷ (take p s ++ (t ++ drop n (c ∷ s)))) n, omega (arith, b))

pub under_suc :
    (o : Option ℕ) (p : ℕ) → Option.map suc o ≡ some p → (q : ℕ) × (o ≡ some q) × (suc q ≡ p)
under_suc none p h = cc
under_suc (some q) p h = (q, refl, cc)

pub absurd_some {ℓ} : {A : Type ℓ} → {p : ℕ} → some p ≡ none → A
absurd_some e = cc

absurd_none {ℓ} : {A : Type ℓ} → {p : ℕ} → none ≡ some p → A
absurd_none e = cc

under_plus :
    (k : ℕ) (o : Option ℕ) (p : ℕ)
    → Option.map (λ q. q + k) o ≡ some p
    → (q : ℕ) × (o ≡ some q) × (q + k ≡ p)
under_plus k none p h = cc
under_plus k (some q) p h = (q, refl, cc)

-- What a search gives is a place of the text.
pub find_lem : (t s : Bytes) (p : ℕ) → find_text t s ≡ some p → FoundAt t s p
unfolding find_text
find_lem t [] p h =
    by_if (λ o. o ≡ some p → FoundAt t [] p) (begins t []) _ _ (λ b. at_start t [] p b)
      (λ b e. absurd_none e) h
find_lem t (c ∷ s) p h =
    by_if (λ o. o ≡ some p → FoundAt t (c ∷ s) p) (begins t (c ∷ s)) _ _
      (λ b. at_start t (c ∷ s) p b)
      (λ b e.
        let (q, f, n) = under_suc (find_text t s) p e in
        subst (FoundAt t (c ∷ s)) n (later t s c q (find_lem t s q f)))
      h

-- And find_from looks no earlier than it is told.
find_from_lem :
    (t s : Bytes) (k p : ℕ) → find_from t s k ≡ some p → (k ≤ p) × (p + length t ≤ length s)
unfolding find_from
find_from_lem t s k p h =
    by_if (λ o. o ≡ some p → (k ≤ p) × (p + length t ≤ length s)) (ltb (length s) k) _ _
      (λ b e. absurd_none e)
      (λ b e.
        let (q, f, n) = under_plus k (find_text t (drop k s)) p e in
        let room = find_lem t (drop k s) q f in
        let d = length-drop k s in (omega (arith, n), ground (arith, room.1)))
      h

begins-append : (t a : Bytes) → begins t (t ++ a) ≡ true
begins-append [] a = refl
begins-append (c ∷ t) a = ground (arith, begins-append t a)

-- A search finds each text that is there, no later than where it is.
pub find_first :
    (t before after : Bytes)
    → (p : ℕ) × (find_text t (before ++ (t ++ after)) ≡ some p) × (p ≤ length before)
unfolding find_text
find_first [] [] [] = (0, refl, omega arith)
find_first [] [] (d ∷ after) = (0, refl, omega arith)
find_first (c ∷ t) [] after = (0, ground (arith, begins-append (c ∷ t) after), omega arith)
find_first t (d ∷ before) after =
    let (p, e, l) = find_first t before after in
    elim (Bool-cases (begins t (d ∷ (before ++ (t ++ after))))) [
      | inl b ↦ (0, ground arith, omega arith)
      | inr b ↦ (suc p, ground (arith, ap (λ o. Option.map suc o) e), omega (arith, l))
    ]
