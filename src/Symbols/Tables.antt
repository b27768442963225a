-- ===== src/Symbols/Tables.antt =====
-- The tables of SymbolManager beside the let scopes: lines 158-356 of
-- src/frontend/symbol_manager.cpp.
pub mod Order
pub mod Groups
use smtlibparser.Prelude.{
  ℕ, ◌+◌, ◌%◌, ◌^◌, Option, none, some, Bool, true, false, List, [], ◌∷◌, ◌++◌, map, Bytes, ltb,
  same, if◌then◌else◌, length, get_elem?,
}
use smtlibparser.Result.{Result, ok, err, assertion, ◌>>=◌, ◌>>◌, cond_assert, undefined}
use smtlibparser.Dict.{Dict, find, insert, erase}
use smtlibparser.Symbols.{SymbolManager, find_either_spelling, or_null}
use smtlibparser.Symbols.Let.{erase_keys}

-- it != m.end(), and p != nullptr
unfoldable pub found {ℓ} : {V : Type ℓ} → Option V → Bool
found none = false
found (some v) = true

-- std::find(names.begin(), names.end(), name) != names.end()
unfoldable pub contains : List Bytes → Bytes → Bool
contains [] name = false
contains (x ∷ xs) name = if same x name then true else contains xs name

-- auto it = std::find(…); if (it != end) names.erase(it);
pub remove_first : List Bytes → Bytes → List Bytes
remove_first [] name = []
remove_first (x ∷ xs) name = if same x name then xs else x ∷ remove_first xs name

-- if (m.find(name) == m.end()) order.push_back(name);
pub note_first {ℓ} : {V : Type ℓ} → Dict V → Bytes → List Bytes → List Bytes
unfolding found
note_first m name order = if found (find m name) then order else order ++ name ∷ []

-- The body of renameVar and of renameTempVar, on the map.
pub rename_key {ℓ} : {V : Type ℓ} → Dict V → Bytes → Bytes → Dict V
rename_key m old_name new_name = elim (find m old_name) [
  | none ↦ m
  | some node ↦ insert (erase m old_name) new_name node
]

-- for (const auto& name : names) map[name] = index;
pub set_all : List Bytes → ℕ → Dict ℕ → Dict ℕ
set_all [] index m = m
set_all (name ∷ names) index m = set_all names index (insert m name index)

module _ {Node Sort : Type 0} where
  pub register_fun : SymbolManager Node Sort → Bytes → Option Node → SymbolManager Node Sort
  register_fun s name node = record s { fun_key_map = insert s.fun_key_map name node }

  pub get_fun : SymbolManager Node Sort → Bytes → Option Node
  get_fun s name = find_either_spelling s.fun_key_map name

  pub has_fun : SymbolManager Node Sort → Bytes → Bool
  unfolding found
  has_fun s name = found (find_either_spelling s.fun_key_map name)

  pub register_fun_var : SymbolManager Node Sort → Bytes → Option Node → SymbolManager Node Sort
  register_fun_var s name node = record s { fun_var_map = insert s.fun_var_map name node }

  pub erase_fun_var : SymbolManager Node Sort → Bytes → SymbolManager Node Sort
  erase_fun_var s key = record s { fun_var_map = erase s.fun_var_map key }

  pub has_fun_var : SymbolManager Node Sort → Bytes → Bool
  unfolding found
  has_fun_var s name = found (find s.fun_var_map name)

  pub register_sort : SymbolManager Node Sort → Bytes → Option Sort → SymbolManager Node Sort
  unfolding note_first
  register_sort s name sort = record s {
    sort_order = note_first s.sort_key_map name s.sort_order;
    sort_key_map = insert s.sort_key_map name sort;
  }

  pub has_sort : SymbolManager Node Sort → Bytes → Bool
  unfolding found
  has_sort s name = found (find s.sort_key_map name)

  pub remove_sort : SymbolManager Node Sort → Bytes → SymbolManager Node Sort
  remove_sort s name = record s { sort_key_map = erase s.sort_key_map name }

  pub register_quant_var : SymbolManager Node Sort → Bytes → Option Node → SymbolManager Node Sort
  register_quant_var s name node = record s { quant_var_map = insert s.quant_var_map name node }

  pub get_quant_var : SymbolManager Node Sort → Bytes → Option Node
  get_quant_var s name = or_null (find s.quant_var_map name)

  pub pop_quant_scope : SymbolManager Node Sort → List Bytes → SymbolManager Node Sort
  pop_quant_scope s keys = record s { quant_var_map = erase_keys keys s.quant_var_map }

  pub has_quant_var : SymbolManager Node Sort → Bytes → Bool
  unfolding found
  has_quant_var s name = found (find s.quant_var_map name)

  pub register_var : SymbolManager Node Sort → Bytes → Option Node → SymbolManager Node Sort
  unfolding note_first
  register_var s name node = record s {
    var_order = note_first s.var_names name s.var_order;
    var_names = insert s.var_names name node;
  }

  pub get_var : SymbolManager Node Sort → Bytes → Option Node
  get_var s name = find_either_spelling s.var_names name

  pub has_var : SymbolManager Node Sort → Bytes → Bool
  unfolding found
  has_var s name = found (find_either_spelling s.var_names name)

  pub remove_var : SymbolManager Node Sort → Bytes → SymbolManager Node Sort
  remove_var s name = record s { var_names = erase s.var_names name }

  pub rename_var : SymbolManager Node Sort → Bytes → Bytes → SymbolManager Node Sort
  unfolding rename_key
  rename_var s old_name new_name = record s { var_names = rename_key s.var_names old_name new_name }

  -- `temp_var_counter_++` on a size_t, which wraps around.
  pub next_temp_var_counter : SymbolManager Node Sort → ℕ × SymbolManager Node Sort
  next_temp_var_counter s =
      (s.temp_var_counter, record s { temp_var_counter = (s.temp_var_counter + 1) % 2 ^ 64 })

  pub register_temp_var : SymbolManager Node Sort → Bytes → Option Node → SymbolManager Node Sort
  unfolding note_first
  register_temp_var s name node = record s {
    temp_var_order = note_first s.temp_var_names name s.temp_var_order;
    temp_var_names = insert s.temp_var_names name node;
  }

  pub get_temp_var : SymbolManager Node Sort → Bytes → Option Node
  get_temp_var s name = or_null (find s.temp_var_names name)

  pub has_temp_var : SymbolManager Node Sort → Bytes → Bool
  unfolding found
  has_temp_var s name = found (find s.temp_var_names name)

  pub rename_temp_var : SymbolManager Node Sort → Bytes → Bytes → SymbolManager Node Sort
  unfolding rename_key
  rename_temp_var s old_name new_name = record s {
    temp_var_names = rename_key s.temp_var_names old_name new_name;
  }

  pub register_placeholder_var :
      SymbolManager Node Sort → Bytes → Option Node → SymbolManager Node Sort
  register_placeholder_var s name node = record s {
    placeholder_var_names = insert s.placeholder_var_names name node;
  }

  pub get_placeholder_var : SymbolManager Node Sort → Bytes → Option Node
  get_placeholder_var s name = or_null (find s.placeholder_var_names name)

  pub has_placeholder_var : SymbolManager Node Sort → Bytes → Bool
  unfolding found
  has_placeholder_var s name = found (find s.placeholder_var_names name)

  pub add_function_name : SymbolManager Node Sort → Bytes → SymbolManager Node Sort
  add_function_name s name = record s { function_names = s.function_names ++ name ∷ [] }

  pub get_functions : SymbolManager Node Sort → List (Option Node)
  get_functions s = map (λ name. or_null (find s.fun_key_map name)) s.function_names

  pub has_function_name : SymbolManager Node Sort → Bytes → Bool
  unfolding contains
  has_function_name s name = contains s.function_names name

  pub add_rec_fun_group : SymbolManager Node Sort → List Bytes → SymbolManager Node Sort
  unfolding set_all
  add_rec_fun_group s [] = s
  add_rec_fun_group s (name ∷ names) = record s {
    rec_fun_groups = s.rec_fun_groups ++ (name ∷ names) ∷ [];
    rec_fun_group_of = set_all (name ∷ names) (length s.rec_fun_groups) s.rec_fun_group_of;
  }

  pub get_rec_fun_group : SymbolManager Node Sort → Bytes → Result (Option (List Bytes))
  get_rec_fun_group s name = elim (find s.rec_fun_group_of name) [
    | none ↦ ok none
    | some index ↦ elim (get_elem? s.rec_fun_groups index) [
      | none ↦ err assertion
      | some group ↦ ok (some group)
    ]
  ]

  pub remove_function_name : SymbolManager Node Sort → Bytes → SymbolManager Node Sort
  unfolding remove_first
  remove_function_name s name = record s { function_names = remove_first s.function_names name }

  pub add_static_function : SymbolManager Node Sort → Option Node → SymbolManager Node Sort
  add_static_function s node = record s { static_functions = s.static_functions ++ node ∷ [] }

  pub remove_fun : SymbolManager Node Sort → Bytes → SymbolManager Node Sort
  unfolding remove_function_name
  remove_fun s name =
      remove_function_name (record s { fun_key_map = erase s.fun_key_map name }) name
