-- ===== src/Context/Named.antt =====
-- Named assertions: nameAssertion and getAssertionName, lines 162-206 of
-- src/frontend/parser_context.cpp, on the two maps and the innermost scope.
pub mod Laws
use smtlibparser.Prelude.{
  ℕ, Option, none, some, Bool, true, false, not, ◌&&◌, List, [], ◌∷◌, ◌++◌, Bytes, same, ◌==◌,
  if◌then◌else◌,
}
use smtlibparser.Dict
use smtlibparser.Dict.{Dict}
use smtlibparser.PtrMap
use smtlibparser.PtrMap.{PtrMap}
use smtlibparser.Context.{ScopeFrame, NameAssertionOutcome, ParserContext}

-- The maps of a context that naming works on, and what it records in the innermost scope.
pub record Names : Type 0 where
  pub named : Dict ℕ
  pub names : PtrMap Bytes
  pub added : List Bytes
  pub replaced : List (Bytes × ℕ)
  pub outcome : NameAssertionOutcome

-- "old != end && old->second != name": the earlier name of the assertion goes away.
pub drop_previous : Bytes → ℕ → Names → Names
drop_previous name node n = elim (PtrMap.find n.names node) [
  | none ↦ n
  | some previous ↦ if same previous name then n else record n {
    replaced = n.replaced ++ (previous, node) ∷ [];
    named = Dict.erase n.named previous;
    names = PtrMap.erase n.names node;
    outcome = record (n.outcome) { assertion_was_named = true; previous_name = previous };
  }
]

-- "taken != end && taken->second != node": the other assertion of the name loses it.
pub steal : Bytes → ℕ → Names → Names
steal name node n = elim (Dict.find n.named name) [
  | none ↦ n
  | some other ↦ if other == node then n else record n {
    replaced = n.replaced ++ (name, other) ∷ [];
    names = PtrMap.erase n.names other;
    outcome = record (n.outcome) { name_was_reused = true };
  }
]

-- named_assertions[name] = node, assertion_names_[node] = name, registerNamedAssertionInScope(name)
pub bind_name : Bytes → ℕ → Names → Names
bind_name name node n = record n {
  named = Dict.insert n.named name node;
  names = PtrMap.insert n.names node name;
  added = n.added ++ name ∷ [];
}

-- existing != end && existing->second == node
pub already_bound : Bytes → ℕ → Names → Bool
already_bound name node n = elim (Dict.find n.named name) [
  | none ↦ false
  | some other ↦ other == node
]

-- nameAssertion, past its guard on a null node.
unfoldable pub name_assertion : Bytes → ℕ → Names → Names
unfolding drop_previous steal bind_name already_bound
name_assertion name node n =
    if already_bound name node n
    then n
    else bind_name name node (steal name node (drop_previous name node n))

pub get_assertion_name : Names → ℕ → Option Bytes
get_assertion_name n node = PtrMap.find n.names node
