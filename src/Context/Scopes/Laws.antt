-- ===== src/Context/Scopes/Laws.antt =====
-- Push and pop of scopes undo one another.
use smtlibparser.Prelude.{
  ℕ, zero, suc, ◌-◌, ◌≡◌, refl, sym, ap, ◌∙◌, Option, none, List, [], ◌∷◌, ◌++◌, arith, length,
  length-append, take, replicate,
}
use mathlib.Core.List.{append-nil}
use smtlibparser.Context.{ParserContext, Objectives, resize}
use smtlibparser.Context.Scopes.{
  remove_all, unname, rename_back, pop_names, new_frame, push_scope, pop_frame, pop_scopes,
  pop_scope, reset_assertions,
}

take-append_length {ℓ} : {A : Type ℓ} (xs ys : List A) → take (length xs) (xs ++ ys) ≡ xs
take-append_length [] ys = refl
take-append_length (x ∷ xs) ys = ap (λ t. x ∷ t) (take-append_length xs ys)

-- Shrinking a vector to the length it had before it grew.
resize-append {ℓ} : {A : Type ℓ} (d : A) (xs ys : List A) → resize d (length xs) (xs ++ ys) ≡ xs
unfolding resize
resize-append d xs ys =
    let e : length xs - length (xs ++ ys) ≡ 0 = omega (arith, length-append xs ys) in
    ap (λ n. take (length xs) (xs ++ ys) ++ replicate n d) e
    ∙ append-nil (take (length xs) (xs ++ ys))
    ∙ take-append_length xs ys

resize-nil {ℓ} : {A : Type ℓ} (d : A) (n : ℕ) → resize d n [] ≡ replicate n d
unfolding resize
resize-nil d zero = refl
resize-nil d (suc n) = let e : suc n - 0 ≡ suc n = omega arith in ap (λ m. replicate m d) e

resize-length {ℓ} : {A : Type ℓ} (d : A) (xs : List A) → resize d (length xs) xs ≡ xs
resize-length d xs = ap (resize d (length xs)) (sym (append-nil xs)) ∙ resize-append d xs []

module _ {Sort : Type 0} (o : Objectives) where
  -- One more scope, on top of the others.
  push_scope_comm :
      (n : ℕ) (c : ParserContext Sort o.State)
      → push_scope o (suc n) c ≡ push_scope o 1 (push_scope o n c)
  unfolding push_scope
  push_scope_comm zero c = refl
  push_scope_comm (suc n) c = push_scope_comm n (push_scope o 1 c)

  push_scope-zero : (c : ParserContext Sort o.State) → push_scope o zero c ≡ c
  unfolding push_scope
  push_scope-zero c = refl

-- What a scope appends to the vectors of a context.
pub record Growth : Type 0 where
  pub assertions : List (Option ℕ)
  pub assumptions : List (List (Option ℕ))
  pub soft_assertions : List (Option ℕ)
  pub soft_weights : List (Option ℕ)
  pub split_lemmas : List (Option ℕ)

pub grow : {Sort O : Type 0} → Growth → ParserContext Sort O → ParserContext Sort O
grow g c = record c {
  assertions = c.assertions ++ g.assertions;
  assumptions = c.assumptions ++ g.assumptions;
  soft_assertions = c.soft_assertions ++ g.soft_assertions;
  soft_weights = c.soft_weights ++ g.soft_weights;
  split_lemmas = c.split_lemmas ++ g.split_lemmas;
}

module _ {Sort : Type 0} (o : Objectives)
    (pop_to_size-size : (s : o.State) → o.pop_to_size (o.size s) s ≡ s) where
  -- Closing a scope that was just opened.
  pop_frame-new_frame :
      (c : ParserContext Sort o.State)
      → pop_frame o
          (new_frame o c)
          c.scope_stack
          (record c { scope_stack = new_frame o c ∷ c.scope_stack })
        ≡ c
  unfolding pop_frame new_frame pop_names remove_all unname rename_back
  pop_frame-new_frame c = λ i. record c {
    assertions = resize-length none c.assertions i;
    assumptions = resize-length [] c.assumptions i;
    soft_assertions = resize-length none c.soft_assertions i;
    soft_weights = resize-length none c.soft_weights i;
    split_lemmas = resize-length none c.split_lemmas i;
    objective_manager = pop_to_size-size c.objective_manager i;
  }

  -- Opening a scope, appending any assertions, assumptions, soft assertions, weights and split
  -- lemmas in it, and closing it gives the context back, where the objective manager is the same
  -- after it is cut to its own size.
  pub pop_scope-push_scope :
      (g : Growth) (c : ParserContext Sort o.State) → pop_scope o 1 (grow g (push_scope o 1 c)) ≡ c
  unfolding pop_scope pop_scopes pop_frame push_scope new_frame grow pop_names remove_all unname
      rename_back
  pop_scope-push_scope g c = λ i. record c {
    assertions = resize-append none c.assertions g.assertions i;
    assumptions = resize-append [] c.assumptions g.assumptions i;
    soft_assertions = resize-append none c.soft_assertions g.soft_assertions i;
    soft_weights = resize-append none c.soft_weights g.soft_weights i;
    split_lemmas = resize-append none c.split_lemmas g.split_lemmas i;
    objective_manager = pop_to_size-size c.objective_manager i;
  }

  pop_scope-suc :
      (m : ℕ) (d : ParserContext Sort o.State)
      → pop_scope o (suc m) (push_scope o 1 d) ≡ pop_scope o m d
  unfolding pop_scope pop_scopes push_scope
  pop_scope-suc m d = ap (pop_scopes o m d.scope_stack) (pop_frame-new_frame d)

  -- Closing as many scopes as were opened gives the context back, where the objective manager is
  -- the same after it is cut to its own size.
  pub pop_scope-push_scope_many :
      (n : ℕ) (c : ParserContext Sort o.State) → pop_scope o n (push_scope o n c) ≡ c
  unfolding pop_scope pop_scopes
  pop_scope-push_scope_many zero c = push_scope-zero o c
  pop_scope-push_scope_many (suc n) c =
      ap (pop_scope o (suc n)) (push_scope_comm o n c)
      ∙ pop_scope-suc n (push_scope o n c)
      ∙ pop_scope-push_scope_many n c

module _ {Sort : Type 0} (o : Objectives) where
  -- Resetting the assertions inside a scope and then closing it leaves as many null assertions as
  -- there were assertions before the scope: the vector grows back.
  pub pop_scope-reset_assertions :
      (c : ParserContext Sort o.State)
      → (pop_scope o 1 (reset_assertions o (push_scope o 1 c))).assertions
        ≡ replicate (length c.assertions) none
  unfolding pop_scope pop_scopes pop_frame push_scope new_frame reset_assertions resize
  pop_scope-reset_assertions c = resize-nil none (length c.assertions)
