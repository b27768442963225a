-- ===== src/Symbols/Let.antt =====
-- Let scopes of SymbolManager: lines 111-156 of src/frontend/symbol_manager.cpp.
pub mod Undo
pub mod Scope
use smtlibparser.Prelude.{
  ℕ, zero, suc, ◌-◌, Option, none, some, Bool, true, false, not, List, [], ◌∷◌, ◌++◌, Bytes, leb,
  if◌then◌else◌, length, drop, replicate,
}
use smtlibparser.Result.{Result, ok, ◌>>=◌, ◌>>◌, cond_assert, err, assertion}
use smtlibparser.Dict.{Dict, find, insert, erase}
use smtlibparser.Symbols.{SymbolManager, LetBackup}

module _ {Node : Type 0} where
  -- A LetBackup built by default, as resize would add.
  pub no_backup : LetBackup Node
  no_backup = record { name = []; old_node = none; had_old = false }

  -- One turn of the loop in popLetScope.
  pub restore : LetBackup Node → Dict (Option Node) → Dict (Option Node)
  restore b m = if b.had_old then insert m b.name b.old_node else erase m b.name

  -- The loop from the end of the backups down to the checkpoint: `n` turns, newest first.
  pub restore_loop : ℕ → List (LetBackup Node) → Dict (Option Node) → Dict (Option Node)
  unfolding restore
  restore_loop zero bs m = m
  restore_loop (suc n) [] m = m
  restore_loop (suc n) (b ∷ bs) m = restore_loop n bs (restore b m)

  -- let_scope_backup_.resize(checkpoint), the newest entry first
  pub resize : ℕ → List (LetBackup Node) → List (LetBackup Node)
  unfolding no_backup
  resize n bs =
      if leb n (length bs)
      then drop (length bs - n) bs
      else replicate (n - length bs) no_backup ++ bs

  pub backup_of : Bytes → Option (Option Node) → LetBackup Node
  backup_of name none = record { name = name; old_node = none; had_old = false }
  backup_of name (some p) = record { name = name; old_node = p; had_old = true }

  -- for (const auto& k : keys) map.erase(k);
  pub erase_keys : List Bytes → Dict (Option Node) → Dict (Option Node)
  erase_keys [] m = m
  erase_keys (k ∷ ks) m = erase_keys ks (erase m k)

module _ {Node Sort : Type 0} where
  pub push_let_scope : SymbolManager Node Sort → SymbolManager Node Sort
  push_let_scope s = record s {
    let_scope_checkpoints = length s.let_scope_backup ∷ s.let_scope_checkpoints;
  }

  -- The part of popLetScope that runs once a checkpoint has been found.
  pub pop_to : ℕ → List ℕ → SymbolManager Node Sort → SymbolManager Node Sort
  unfolding restore_loop resize
  pop_to checkpoint rest s = record s {
    let_scope_checkpoints = rest;
    let_key_map =
        restore_loop (length s.let_scope_backup - checkpoint) s.let_scope_backup s.let_key_map;
    let_scope_backup = resize checkpoint s.let_scope_backup;
  }

  pub pop_let_scope : SymbolManager Node Sort → Result (SymbolManager Node Sort)
  unfolding pop_to
  pop_let_scope s = elim s.let_scope_checkpoints [
    | [] ↦ err assertion
    | checkpoint ∷ rest ↦ ok (pop_to checkpoint rest s)
  ]

  -- The overload popLetScope(keys).
  pub pop_let_keys : SymbolManager Node Sort → List Bytes → SymbolManager Node Sort
  unfolding erase_keys
  pop_let_keys s keys = record s { let_key_map = erase_keys keys s.let_key_map }

  pub register_let : SymbolManager Node Sort → Bytes → Option Node → SymbolManager Node Sort
  unfolding backup_of
  register_let s name node = record s {
    let_scope_backup = backup_of name (find s.let_key_map name) ∷ s.let_scope_backup;
    let_key_map = insert s.let_key_map name node;
  }

  pub has_let : SymbolManager Node Sort → Bytes → Bool
  has_let s name = elim (find s.let_key_map name) [ none ↦ false | some p ↦ true ]
