-- ===== src/Text/Utf8/Laws.antt =====
-- The code points of a text put together are the text, and utf8Length counts them.
use mathlib.Core.Option
use smtlibparser.Prelude.{
  ℕ, zero, suc, ◌-◌, ◌≡◌, refl, sym, ap, ◌∙◌, Bool, true, false, not, ◌||◌, ◌==◌, ltb, List, [],
  ◌∷◌, ◌++◌, if◌then◌else◌, Option, some, none, Bytes, take, drop, length, take-append-drop, arith,
}
use smtlibparser.Text.Utf8.{
  is_continuation, utf8_length, lead_width, all_continuation, code_points_from, utf8_code_points,
  utf8_code_point_count,
}

abbrev pub joined : List Bytes → Bytes
joined [] = []
joined (p ∷ ps) = p ++ joined ps

utf8_length-drop :
    (n : ℕ) (s : Bytes)
    → all_continuation (take n s) ≡ true
    → utf8_length (drop n s) ≡ utf8_length s
unfolding utf8_length
utf8_length-drop zero s h = refl
utf8_length-drop (suc n) [] h = refl
utf8_length-drop (suc n) (c ∷ s) h = ground (arith, utf8_length-drop n s)

-- A first byte is no continuation.
lead_width-start : (c : ℕ) → (lead_width c == 0) ≡ false → is_continuation c ≡ false
unfolding lead_width
lead_width-start c h = ground arith

suc_less : (n : ℕ) → suc n - 1 ≡ n
suc_less n = omega arith

take-joined :
    (n : ℕ) (c : ℕ) (s : Bytes) → (n == 0) ≡ false → take n (c ∷ s) ++ drop (n - 1) s ≡ c ∷ s
take-joined zero c s h = cc
take-joined (suc n) c s h =
    ap (λ m. c ∷ (take n s ++ drop m s)) (suc_less n) ∙ ap (λ t. c ∷ t) (take-append-drop n s)

-- A result shows that the guards were passed.
passed :
    (a b : Bool) (o : Option (List Bytes)) (p : Bytes) (ps : List Bytes)
    → (if a then none else if not b then none else Option.map (λ points. p ∷ points) o) ≡ some ps
    → (rest : List Bytes) × (o ≡ some rest) × (a ≡ false) × (b ≡ true) × (ps ≡ p ∷ rest)
passed true b o p ps h = cc
passed false false o p ps h = cc
passed false true none p ps h = cc
passed false true (some rest) p ps h = (rest, refl, refl, refl, cc)

-- Where a step of the loop goes on, and with what.
step_lem :
    (c : ℕ) (s : Bytes) (ps : List Bytes)
    → code_points_from 0 (c ∷ s) ≡ some ps
    → (rest : List Bytes) × (code_points_from (lead_width c - 1) s ≡ some rest)
      × ((lead_width c == 0) ≡ false)
      × (all_continuation (take (lead_width c - 1) s) ≡ true)
      × (ps ≡ take (lead_width c) (c ∷ s) ∷ rest)
unfolding code_points_from
step_lem c s ps h =
    let w = lead_width c in
    let (rest, o, a, b, e) =
      passed (w == 0 || ltb (length (c ∷ s)) w) (all_continuation (take (w - 1) s))
        (code_points_from (w - 1) s) (take w (c ∷ s)) ps h in
    (rest, o, ground arith, b, e)

nothing_left : (ps : List Bytes) → [] ≡ ps → (joined ps ≡ []) × (length ps ≡ utf8_length [])
unfolding utf8_length
nothing_left ps e = (ap joined (sym e), ap length (sym e))

counted :
    (c : ℕ) (s : Bytes) (n : ℕ)
    → (lead_width c == 0) ≡ false
    → n ≡ utf8_length s
    → suc n ≡ utf8_length (c ∷ s)
unfolding utf8_length
counted c s n w e = ground (arith, lead_width-start c w)

code_points_lem :
    (k : ℕ) (s : Bytes) (ps : List Bytes)
    → code_points_from k s ≡ some ps
    → (joined ps ≡ drop k s) × (length ps ≡ utf8_length (drop k s))
unfolding code_points_from
code_points_lem zero [] ps h = nothing_left ps cc
code_points_lem (suc k) [] ps h = nothing_left ps cc
code_points_lem (suc k) (c ∷ s) ps h = code_points_lem k s ps h
code_points_lem zero (c ∷ s) ps h =
    let (rest, o, w, t, e) = step_lem c s ps h in
    let (j, l) = code_points_lem (lead_width c - 1) s rest o in
    (
      ap joined e ∙ ap (λ t. take (lead_width c) (c ∷ s) ++ t) j ∙ take-joined (lead_width c) c s w,
      ap length e ∙ counted c s (length rest) w (l ∙ utf8_length-drop (lead_width c - 1) s t),
    )

-- Where a text splits into code points, these are the text, put together, and utf8Length counts them.
pub utf8_code_points_lem :
    (s : Bytes) (ps : List Bytes)
    → utf8_code_points s ≡ some ps
    → (joined ps ≡ s) × (utf8_code_point_count s ≡ some (utf8_length s))
unfolding utf8_code_points utf8_code_point_count
utf8_code_points_lem s ps h =
    let (j, l) = code_points_lem 0 s ps h in (j, ap (Option.map length) h ∙ ap some l)
