-- ===== src/Symbols/Let/Scope.antt =====
-- A let scope leaves no trace: whatever is bound and nested inside, closing it restores every lookup.
use smtlibparser.Prelude.{◌≡◌, refl, ap, sym, ◌∙◌, Option, List, [], ◌∷◌, ◌++◌, Bytes}
use mathlib.Core.List.{append_assoc}
use smtlibparser.Result.{Result, ok, ◌>>=◌}
use smtlibparser.Dict.{Dict, find, insert, SameMap}
use smtlibparser.Symbols.{SymbolManager, LetBackup}
use smtlibparser.Symbols.Let.{push_let_scope, pop_let_scope, pop_to, register_let, backup_of}
use smtlibparser.Symbols.Let.Undo.{
  undo, undo-nil, undo-append, restore-SameMap, restore-insert, restore_loop-append, resize-append,
}

-- What a parser does between two calls: bindings, and whole nested scopes.
pub data Body (Node : Type 0) : Type 0 where
  done : Body Node
  bind : Bytes → Option Node → Body Node → Body Node
  scope : Body Node → Body Node → Body Node

module _ {Node Sort : Type 0} where
  pub run_body : Body Node → SymbolManager Node Sort → Result (SymbolManager Node Sort)
  run_body done s = ok s
  run_body (bind name node rest) s = run_body rest (register_let s name node)
  run_body (scope body rest) s =
      run_body body (push_let_scope s) >>= λ t. pop_let_scope t >>= λ u. run_body rest u

  -- `s` with more bindings, and their backups.
  abbrev grow :
      SymbolManager Node Sort → List (LetBackup Node) → Dict (Option Node) → SymbolManager Node Sort
  grow s extra m = record s { let_scope_backup = extra ++ s.let_scope_backup; let_key_map = m }

  -- Closing a scope that has grown.
  pop-grow :
      (s : SymbolManager Node Sort) (extra : List (LetBackup Node)) (m : Dict (Option Node))
      → pop_let_scope (grow (push_let_scope s) extra m)
        ≡ ok (record s { let_key_map = undo extra m })
  unfolding pop_let_scope pop_to push_let_scope
  pop-grow s extra m = λ i. ok (record s {
    let_scope_backup = resize-append extra s.let_scope_backup i;
    let_key_map = restore_loop-append extra s.let_scope_backup m i;
  })

  -- A binding, then more, is one growth.
  grow-register_let :
      (s : SymbolManager Node Sort) (name : Bytes) (node : Option Node)
      (extra : List (LetBackup Node)) (m : Dict (Option Node))
      → grow (register_let s name node) extra m
        ≡ grow s (extra ++ backup_of name (find s.let_key_map name) ∷ []) m
  unfolding register_let
  grow-register_let s name bound extra m = λ i. record s {
    let_scope_backup =
        sym (append_assoc extra (backup_of name (find s.let_key_map name) ∷ []) s.let_scope_backup)
          i;
    let_key_map = m;
  }

  undo-register_let :
      (s : SymbolManager Node Sort) (name : Bytes) (node : Option Node)
      (extra : List (LetBackup Node)) (m : Dict (Option Node))
      → SameMap (undo extra m) (register_let s name node).let_key_map
      → SameMap (undo (extra ++ backup_of name (find s.let_key_map name) ∷ []) m) s.let_key_map
  unfolding register_let
  undo-register_let s name node extra m h k =
      let b = backup_of name (find s.let_key_map name) in
      ap (λ n. find n k) (undo-append extra b m)
      ∙ restore-SameMap b (undo extra m) (insert s.let_key_map name node) h k
      ∙ restore-insert s.let_key_map name node k

  -- A body ends with its bindings on top of the state, and undoing them gives the map back.
  run_body-grow :
      (b : Body Node) (s : SymbolManager Node Sort)
      → (extra : List (LetBackup Node)) × (m : Dict (Option Node)) × SameMap
          (undo extra m)
          s.let_key_map
        × (run_body b s ≡ ok (grow s extra m))
  unfolding run_body push_let_scope
  run_body-grow done s = ([], s.let_key_map, λ k. ap (λ n. find n k) (undo-nil s.let_key_map), refl)
  run_body-grow (bind name node rest) s =
      let (extra, m, h, e) = run_body-grow rest (register_let s name node) in
      (
        extra ++ backup_of name (find s.let_key_map name) ∷ [],
        m,
        undo-register_let s name node extra m h,
        e ∙ ap ok (grow-register_let s name node extra m),
      )
  run_body-grow (scope body rest) s =
      let (inside, n, same, run) = run_body-grow body (push_let_scope s) in
      let (extra, m, h, e) = run_body-grow rest (record s { let_key_map = undo inside n }) in
      (extra, m, λ k. h k ∙ same k, rw (run, pop-grow s inside n) e)

  -- Opening a scope, running any body of bindings and nested scopes, and closing it succeeds. It
  -- changes the let map alone, and that map answers every lookup as it did before the scope.
  pub pop_let_scope-run_body :
      (body : Body Node) (s : SymbolManager Node Sort)
      → (m : Dict (Option Node)) × SameMap m s.let_key_map
        × ((run_body body (push_let_scope s) >>= pop_let_scope) ≡ ok (record s { let_key_map = m }))
  unfolding push_let_scope
  pop_let_scope-run_body body s =
      let (inside, n, h, run) = run_body-grow body (push_let_scope s) in
      (undo inside n, h, rw run (pop-grow s inside n))
