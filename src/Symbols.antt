-- ===== src/Symbols.antt =====
-- SymbolManager: include/somtparser/frontend/symbol_manager.h and src/frontend/symbol_manager.cpp.
-- A shared_ptr that may be null is an `Option`, a map is a `Dict`. The vectors that grow and shrink
-- at their end, the let backups and the checkpoints, are kept with the newest entry first.
pub mod Let
pub mod Resolve
pub mod Tables
pub mod Tests
use smtlibparser.Prelude.{
  ℕ, zero, suc, ◌+◌, ◌-◌, Option, none, some, Bool, true, false, not, ◌&&◌, List, [], ◌∷◌, ◌++◌,
  map, Bytes, bytes, same, ltb, leb, ◌==◌, if◌then◌else◌, length, get_elem?, get_or, take, drop,
  replicate,
}
use smtlibparser.Result.{Result, ok, err, ◌>>=◌, ◌>>◌, cond_assert}
use smtlibparser.Dict
use smtlibparser.Dict.{Dict, find, insert, erase}

pub record ResolveScope : Type 0 where
  pub check_let : Bool
  pub in_quantifier_scope : Bool

pub record LetBackup (Node : Type 0) : Type 0 where
  pub name : Bytes
  pub old_node : Option Node
  pub had_old : Bool

pub record SymbolManager (Node Sort : Type 0) : Type 0 where
  pub let_key_map : Dict (Option Node)
  pub let_scope_backup : List (LetBackup Node)
  pub let_scope_checkpoints : List ℕ
  pub fun_key_map : Dict (Option Node)
  pub fun_var_map : Dict (Option Node)
  pub sort_key_map : Dict (Option Sort)
  pub quant_var_map : Dict (Option Node)
  pub var_names : Dict (Option Node)
  pub temp_var_counter : ℕ
  pub temp_var_names : Dict (Option Node)
  pub placeholder_var_names : Dict (Option Node)
  pub function_names : List Bytes
  pub rec_fun_groups : List (List Bytes)
  pub rec_fun_group_of : Dict ℕ
  pub static_functions : List (Option Node)
  pub sort_order : List Bytes
  pub var_order : List Bytes
  pub temp_var_order : List Bytes

-- s.front() and s.back(), asked only of strings with more than two bytes
front : Bytes → ℕ
front s = get_or s 0 0

back : Bytes → ℕ
back s = get_or s (length s - 1) 0

-- s.substr(1, s.size() - 2)
inner : Bytes → Bytes
inner s = take (length s - 2) (drop 1 s)

pub is_quoted : Bytes → Bool
unfolding front back
is_quoted name = ltb 2 (length name) && (front name == b'|') && (back name == b'|')

pub other_spelling : Bytes → Bytes
unfolding is_quoted inner
other_spelling name = if is_quoted name then inner name else (b'|' ∷ name) ++ b'|' ∷ []

-- it != m.end() ? it->second : nullptr
pub or_null {ℓ} : {V : Type ℓ} → Option (Option V) → Option V
or_null none = none
or_null (some p) = p

pub find_either_spelling {ℓ} : {V : Type ℓ} → Dict (Option V) → Bytes → Option V
unfolding or_null other_spelling
find_either_spelling m name = elim (find m name) [
  | some p ↦ p
  | none ↦ or_null (find m (other_spelling name))
]

-- if (auto n = first) { return n; } rest
pub or_else {ℓ} : {V : Type ℓ} → Option V → Option V → Option V
or_else none rest = rest
or_else (some n) rest = some n

module _ {Node Sort : Type 0} where
  pub resolve_symbol : SymbolManager Node Sort → Bytes → ResolveScope → Option Node
  unfolding or_else
  resolve_symbol s name scope = or_else (find_either_spelling s.placeholder_var_names name) (
      or_else (if scope.check_let then find_either_spelling s.let_key_map name else none) (
        or_else (find_either_spelling s.fun_key_map name) (
          or_else (find_either_spelling s.fun_var_map name) (
            or_else
              (if scope.in_quantifier_scope
                then find_either_spelling s.quant_var_map name
                else none)
              (find_either_spelling s.var_names name)))))

  pub resolve_term : SymbolManager Node Sort → Bytes → ResolveScope → Option Node
  unfolding or_else
  resolve_term s name scope = or_else (find_either_spelling s.placeholder_var_names name) (
      or_else (if scope.check_let then find_either_spelling s.let_key_map name else none) (
        or_else (find_either_spelling s.fun_var_map name) (
          or_else
            (if scope.in_quantifier_scope then find_either_spelling s.quant_var_map name else none)
            (find_either_spelling s.var_names name))))

  pub resolve_fun : SymbolManager Node Sort → Bytes → Option Node
  unfolding or_else
  resolve_fun s name =
      or_else (find_either_spelling s.fun_key_map name) (find_either_spelling s.fun_var_map name)

  pub resolve_sort : SymbolManager Node Sort → Bytes → Option Sort
  resolve_sort s name = find_either_spelling s.sort_key_map name
