-- ===== src/Context/Tests.antt =====
-- Scopes and named assertions at concrete contexts, with a list of objectives.
use smtlibparser.Prelude.{
  ℕ, ◌≡◌, refl, some, false, List, [], ◌∷◌, Bytes, bytes, length, take, ap, arith, same_iff,
}
use smtlibparser.Dict
use smtlibparser.PtrMap
use smtlibparser.Symbols.Tests.{blank}
use smtlibparser.Context.{ParserContext, Objectives}
use smtlibparser.Context.Named.{Names, name_assertion}
use smtlibparser.Context.Named.Laws.{IsBijection, name_assertion-IsBijection}
use smtlibparser.Context.Scopes.{push_scope, pop_scope}
use smtlibparser.Context.Scopes.Laws.{Growth, grow, pop_scope-push_scope}

abbrev objectives : Objectives
objectives = record { State = List ℕ; size = length; pop_to_size = take; clear = λ s. [] }

take-length : (s : List ℕ) → take (length s) s ≡ s
take-length [] = refl
take-length (x ∷ xs) = ap (λ t. x ∷ t) (take-length xs)

abbrev context : ParserContext ℕ (List ℕ)
context = record {
  symbol_manager = blank;
  objective_manager = 4 ∷ [];
  assertions = some 1 ∷ some 2 ∷ [];
  assertion_groups = Dict.empty;
  named_assertions = Dict.empty;
  assumptions = [];
  soft_assertions = some 3 ∷ [];
  soft_weights = some 5 ∷ [];
  soft_assertion_groups = Dict.empty;
  split_lemmas = [];
  scope_stack = [];
  assertion_names = PtrMap.empty;
}

abbrev growth : Growth
growth = record {
  assertions = some 7 ∷ [];
  assumptions = (some 7 ∷ []) ∷ [];
  soft_assertions = [];
  soft_weights = [];
  split_lemmas = some 8 ∷ [];
}

pop_scope-push_scope_example :
    pop_scope objectives 1 (grow growth (push_scope objectives 1 context)) ≡ context
pop_scope-push_scope_example = pop_scope-push_scope objectives take-length growth context

-- One assertion, named a.
abbrev one_name : Names
one_name = record {
  named = Dict.insert Dict.empty (bytes "a") 1;
  names = PtrMap.insert PtrMap.empty 1 (bytes "a");
  added = [];
  replaced = [];
  outcome = record { assertion_was_named = false; previous_name = []; name_was_reused = false };
}

one_name-IsBijection : IsBijection one_name
one_name-IsBijection = record {
  forward = λ x k h. ground (
    arith,
    h,
    Dict.find-insert {V = ℕ} Dict.empty (bytes "a") x 1,
    Dict.find-empty {V = ℕ} x,
    PtrMap.find-insert {V = Bytes} PtrMap.empty 1 k (bytes "a"),
    same_iff (bytes "a") x,
  );
  backward = λ k x h. ground (
    arith,
    h,
    Dict.find-insert {V = ℕ} Dict.empty (bytes "a") x 1,
    PtrMap.find-empty {V = Bytes} k,
    PtrMap.find-insert {V = Bytes} PtrMap.empty 1 k (bytes "a"),
    same_iff (bytes "a") x,
  );
}

name_assertion-IsBijection_example : IsBijection (name_assertion (bytes "a") 2 one_name)
name_assertion-IsBijection_example =
    name_assertion-IsBijection (bytes "a") 2 one_name one_name-IsBijection
