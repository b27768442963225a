-- ===== src/Context/Scopes.antt =====
-- The stack of push and pop scopes: lines 48-231 of src/frontend/parser_context.cpp.
pub mod Laws
use smtlibparser.Prelude.{
  ℕ, zero, suc, ◌+◌, ◌-◌, Option, none, some, Bool, true, false, List, [], ◌∷◌, ◌++◌, Bytes, ltb,
  same, if◌then◌else◌, length,
}
use mathlib.Core.List.{reverse}
use smtlibparser.Dict
use smtlibparser.Dict.{Dict}
use smtlibparser.PtrMap
use smtlibparser.PtrMap.{PtrMap}
use smtlibparser.Symbols.{SymbolManager}
use smtlibparser.Symbols.Tables.{remove_var, remove_fun, remove_sort}
use smtlibparser.Context.{ScopeFrame, NameAssertionOutcome, ParserContext, Objectives, resize}
use smtlibparser.Context.Named
use smtlibparser.Context.Named.{Names}

-- The loops that remove what a scope has added.
pub remove_all {ℓ} : {S : Type ℓ} → (S → Bytes → S) → List Bytes → S → S
remove_all remove [] s = s
remove_all remove (name ∷ rest) s = remove_all remove rest (remove s name)

-- Named assertions and their inverse, as popScope works on them.
pub Pair : Type 0
Pair = Dict ℕ × PtrMap Bytes

-- auto it = named_assertions.find(key); the pair of entries goes away.
pub unname : Pair → Bytes → Pair
unfolding Pair
unname (named, names) key = elim (Dict.find named key) [
  | none ↦ (named, names)
  | some node ↦ (Dict.erase named key, PtrMap.erase names node)
]

pub rename_back : List (Bytes × ℕ) → Pair → Pair
unfolding Pair
rename_back [] p = p
rename_back ((name, node) ∷ rest) p =
    rename_back rest (Dict.insert p.0 name node, PtrMap.insert p.1 node name)

-- The named assertions after a scope: its keys removed, then what they displaced, last first.
pub pop_names : ScopeFrame → Pair → Pair
unfolding remove_all unname rename_back
pop_names frame p =
    rename_back (reverse frame.replaced_named_assertions)
      (remove_all unname frame.added_named_assertion_keys p)

pub below : ℕ → List ℕ → List ℕ
below n [] = []
below n (i ∷ is) = if ltb i n then i ∷ below n is else below n is

-- The indices from the scope leave a group; a group without any goes away.
pub prune : ℕ → Dict (List ℕ) → Bytes → Dict (List ℕ)
unfolding below
prune n m key = elim (Dict.find m key) [
  | none ↦ m
  | some set ↦ elim (below n set) [ [] ↦ Dict.erase m key | i ∷ is ↦ Dict.insert m key (i ∷ is) ]
]

module _ {Sort : Type 0} (o : Objectives) where
  open o use {size, pop_to_size, clear}

  pub new_frame : ParserContext Sort o.State → ScopeFrame
  new_frame c = record {
    assertions_size = length c.assertions;
    assumptions_size = length c.assumptions;
    soft_assertions_size = length c.soft_assertions;
    soft_weights_size = length c.soft_weights;
    objectives_size = size c.objective_manager;
    split_lemmas_size = length c.split_lemmas;
    added_vars = [];
    added_funs = [];
    added_sorts = [];
    added_named_assertion_keys = [];
    replaced_named_assertions = [];
    added_assertion_group_keys = [];
    added_soft_assertion_group_keys = [];
  }

  pub push_scope : ℕ → ParserContext Sort o.State → ParserContext Sort o.State
  unfolding new_frame
  push_scope zero c = c
  push_scope (suc n) c = push_scope n (record c { scope_stack = new_frame c ∷ c.scope_stack })

  -- One turn of the loop of popScope.
  pub pop_frame :
      ScopeFrame → List ScopeFrame → ParserContext Sort o.State → ParserContext Sort o.State
  unfolding resize remove_all pop_names prune
  pop_frame frame rest c =
      let (named, names) = pop_names frame (c.named_assertions, c.assertion_names) in
      record c {
        assertions = resize none frame.assertions_size c.assertions;
        assumptions = resize [] frame.assumptions_size c.assumptions;
        soft_assertions = resize none frame.soft_assertions_size c.soft_assertions;
        soft_weights = resize none frame.soft_weights_size c.soft_weights;
        split_lemmas = resize none frame.split_lemmas_size c.split_lemmas;
        symbol_manager = remove_all remove_sort frame.added_sorts (
            remove_all remove_fun frame.added_funs
              (remove_all remove_var frame.added_vars c.symbol_manager));
        named_assertions = named;
        assertion_names = names;
        assertion_groups =
            remove_all (prune frame.assertions_size) frame.added_assertion_group_keys
              c.assertion_groups;
        soft_assertion_groups =
            remove_all (prune frame.soft_assertions_size) frame.added_soft_assertion_group_keys
              c.soft_assertion_groups;
        objective_manager = pop_to_size frame.objectives_size c.objective_manager;
        scope_stack = rest;
      }

  -- `n` turns, or as many as there are scopes.
  pop_scopes : ℕ → List ScopeFrame → ParserContext Sort o.State → ParserContext Sort o.State
  unfolding pop_frame
  pop_scopes zero stack c = c
  pop_scopes (suc n) [] c = c
  pop_scopes (suc n) (frame ∷ rest) c = pop_scopes n rest (pop_frame frame rest c)

  pub pop_scope : ℕ → ParserContext Sort o.State → ParserContext Sort o.State
  unfolding pop_scopes
  pop_scope n c = pop_scopes n c.scope_stack c

  pub reset_assertions : ParserContext Sort o.State → ParserContext Sort o.State
  reset_assertions c = record c {
    assertions = [];
    assumptions = [];
    soft_assertions = [];
    soft_weights = [];
    assertion_groups = Dict.empty;
    soft_assertion_groups = Dict.empty;
    named_assertions = Dict.empty;
    assertion_names = PtrMap.empty;
    split_lemmas = [];
  }

  -- Without the managers that the Parser creates anew.
  pub reset_all : ParserContext Sort o.State → ParserContext Sort o.State
  unfolding reset_assertions
  reset_all c = record (reset_assertions c) {
    scope_stack = [];
    objective_manager = clear c.objective_manager;
  }

module _ {Sort : Type 0} {objectives : Type 0} where
  -- if (!scope_stack_.empty()) change(scope_stack_.back())
  pub in_scope :
      (ScopeFrame → ScopeFrame) → ParserContext Sort objectives → ParserContext Sort objectives
  in_scope change c = elim c.scope_stack [
    | [] ↦ c
    | frame ∷ rest ↦ record c { scope_stack = change frame ∷ rest }
  ]

  pub register_var_in_scope : ParserContext Sort objectives → Bytes → ParserContext Sort objectives
  unfolding in_scope
  register_var_in_scope c name =
      in_scope (λ f. record f { added_vars = f.added_vars ++ name ∷ [] }) c

  pub register_fun_in_scope : ParserContext Sort objectives → Bytes → ParserContext Sort objectives
  unfolding in_scope
  register_fun_in_scope c name =
      in_scope (λ f. record f { added_funs = f.added_funs ++ name ∷ [] }) c

  pub register_sort_in_scope : ParserContext Sort objectives → Bytes → ParserContext Sort objectives
  unfolding in_scope
  register_sort_in_scope c name =
      in_scope (λ f. record f { added_sorts = f.added_sorts ++ name ∷ [] }) c

  pub register_assertion_group_in_scope :
      ParserContext Sort objectives → Bytes → ParserContext Sort objectives
  unfolding in_scope
  register_assertion_group_in_scope c name =
      in_scope
        (λ f. record f { added_assertion_group_keys = f.added_assertion_group_keys ++ name ∷ [] }) c

  pub register_soft_assertion_group_in_scope :
      ParserContext Sort objectives → Bytes → ParserContext Sort objectives
  unfolding in_scope
  register_soft_assertion_group_in_scope c name =
      in_scope
        (λ f. record f {
          added_soft_assertion_group_keys = f.added_soft_assertion_group_keys ++ name ∷ [];
        })
        c

  -- The part of a context that naming works on, with the records of the innermost scope, if any.
  pub names_of : ParserContext Sort objectives → Names
  names_of c = record {
    named = c.named_assertions;
    names = c.assertion_names;
    added = elim c.scope_stack [ [] ↦ [] | frame ∷ rest ↦ frame.added_named_assertion_keys ];
    replaced = elim c.scope_stack [ [] ↦ [] | frame ∷ rest ↦ frame.replaced_named_assertions ];
    outcome = record { assertion_was_named = false; previous_name = []; name_was_reused = false };
  }

  -- Without a scope the two records go nowhere.
  pub put_names : Names → ParserContext Sort objectives → ParserContext Sort objectives
  unfolding in_scope
  put_names n c =
      in_scope
        (λ f. record f {
          added_named_assertion_keys = n.added;
          replaced_named_assertions = n.replaced;
        })
        (record c { named_assertions = n.named; assertion_names = n.names })

  -- nameAssertion on the whole context, with its guard on a null node.
  pub name_assertion :
      Bytes
      → Option ℕ
      → ParserContext Sort objectives
      → ParserContext Sort objectives × NameAssertionOutcome
  unfolding names_of put_names Named.name_assertion
  name_assertion name none c = (c, (names_of c).outcome)
  name_assertion name (some node) c =
      let n = Named.name_assertion name node (names_of c) in (put_names n c, n.outcome)
