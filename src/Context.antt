-- ===== src/Context.antt =====
-- ParserContext: include/somtparser/frontend/parser_context.h and src/frontend/parser_context.cpp.
-- A node is known by its number, as nodes are hash-consed and compared as pointers. The symbol
-- manager is present, as the Parser sets it; the objective manager, of objective.cpp, is the
-- parameter `Objectives`.
pub mod Named
pub mod Scopes
mod Tests
use smtlibparser.Prelude.{
  ℕ, zero, suc, ◌+◌, ◌-◌, Option, none, some, Bool, true, false, List, [], ◌∷◌, ◌++◌, Bytes, ltb,
  same, ◌==◌, if◌then◌else◌, length, take, replicate,
}
use smtlibparser.Dict
use smtlibparser.Dict.{Dict}
use smtlibparser.PtrMap
use smtlibparser.PtrMap.{PtrMap}
use smtlibparser.Symbols.{SymbolManager}

-- What ParserContext uses of the ObjectiveManager.
pub record Objectives : Type 1 where
  pub State : Type 0
  pub size : State → ℕ
  pub pop_to_size : ℕ → State → State
  pub clear : State → State

pub record ScopeFrame : Type 0 where
  pub assertions_size : ℕ
  pub assumptions_size : ℕ
  pub soft_assertions_size : ℕ
  pub soft_weights_size : ℕ
  pub objectives_size : ℕ
  pub split_lemmas_size : ℕ
  pub added_vars : List Bytes
  pub added_funs : List Bytes
  pub added_sorts : List Bytes
  pub added_named_assertion_keys : List Bytes
  pub replaced_named_assertions : List (Bytes × ℕ)
  pub added_assertion_group_keys : List Bytes
  pub added_soft_assertion_group_keys : List Bytes

pub record NameAssertionOutcome : Type 0 where
  pub assertion_was_named : Bool
  pub previous_name : Bytes
  pub name_was_reused : Bool

-- `scope_stack` has the innermost scope first. A set of indices is a list.
pub record ParserContext (Sort : Type 0) (objectives : Type 0) : Type 0 where
  pub symbol_manager : SymbolManager ℕ Sort
  pub objective_manager : objectives
  pub assertions : List (Option ℕ)
  pub assertion_groups : Dict (List ℕ)
  pub named_assertions : Dict ℕ
  pub assumptions : List (List (Option ℕ))
  pub soft_assertions : List (Option ℕ)
  pub soft_weights : List (Option ℕ)
  pub soft_assertion_groups : Dict (List ℕ)
  pub split_lemmas : List (Option ℕ)
  pub scope_stack : List ScopeFrame
  pub assertion_names : PtrMap Bytes

-- v.resize(n): the first n elements, with default elements behind them where there are fewer.
pub resize {ℓ} : {A : Type ℓ} → A → ℕ → List A → List A
resize d n xs = take n xs ++ replicate (n - length xs) d
