-- ===== src/Symbols/Let/Undo.antt =====
-- Running the backups of a scope backwards restores the map that the scope started from.
use smtlibparser.Prelude.{
  ◌-◌, ◌≡◌, refl, ap, ◌∙◌, inl, inr, Option, List, [], ◌∷◌, ◌++◌, Bytes, same_iff, arith, length,
  length-append, drop, Option-cases,
}
use smtlibparser.Dict.{Dict, find, insert, SameMap, find-insert, find-erase}
use smtlibparser.Symbols.{LetBackup}
use smtlibparser.Symbols.Let.{restore, restore_loop, resize, backup_of}

module _ {Node : Type 0} where
  -- Turning one backup back respects equality of maps.
  pub restore-SameMap :
      (b : LetBackup Node) (m n : Dict (Option Node))
      → SameMap m n
      → SameMap (restore b m) (restore b n)
  unfolding restore
  restore-SameMap b m n h k = ground (
    arith,
    h k,
    find-insert m b.name k b.old_node,
    find-insert n b.name k b.old_node,
    find-erase m b.name k,
    find-erase n b.name k,
  )

  -- All backups of a list, from its head.
  pub undo : List (LetBackup Node) → Dict (Option Node) → Dict (Option Node)
  undo [] m = m
  undo (b ∷ bs) m = undo bs (restore b m)

  pub undo-nil : (m : Dict (Option Node)) → undo [] m ≡ m
  unfolding undo
  undo-nil m = refl

  pub undo-append :
      (xs : List (LetBackup Node)) (b : LetBackup Node) (m : Dict (Option Node))
      → undo (xs ++ b ∷ []) m ≡ restore b (undo xs m)
  unfolding undo
  undo-append [] b m = refl
  undo-append (x ∷ xs) b m = undo-append xs b (restore x m)

  -- The loop of popLetScope runs exactly the backups above its checkpoint.
  restore_loop-length :
      (xs ys : List (LetBackup Node)) (m : Dict (Option Node))
      → restore_loop (length xs) (xs ++ ys) m ≡ undo xs m
  unfolding restore_loop undo
  restore_loop-length [] ys m = refl
  restore_loop-length (x ∷ xs) ys m = restore_loop-length xs ys (restore x m)

  pub restore_loop-append :
      (xs ys : List (LetBackup Node)) (m : Dict (Option Node))
      → restore_loop (length (xs ++ ys) - length ys) (xs ++ ys) m ≡ undo xs m
  restore_loop-append xs ys m =
      let e : length (xs ++ ys) - length ys ≡ length xs = omega (arith, length-append xs ys) in
      ap (λ n. restore_loop n (xs ++ ys) m) e ∙ restore_loop-length xs ys m

  drop-length : (xs ys : List (LetBackup Node)) → drop (length xs) (xs ++ ys) ≡ ys
  drop-length [] ys = refl
  drop-length (x ∷ xs) ys = drop-length xs ys

  pub resize-append : (xs ys : List (LetBackup Node)) → resize (length ys) (xs ++ ys) ≡ ys
  unfolding resize
  resize-append xs ys =
      let e : length (xs ++ ys) - length ys ≡ length xs = omega (arith, length-append xs ys) in
      ground (arith, length-append xs ys, ap (λ n. drop n (xs ++ ys)) e, drop-length xs ys)

  -- Undoing one registerLet.
  pub restore-insert :
      (m : Dict (Option Node)) (name : Bytes) (node : Option Node)
      → SameMap (restore (backup_of name (find m name)) (insert m name node)) m
  unfolding restore backup_of
  restore-insert m name node k = elim (Option-cases (find m name)) [
    | inl e ↦ rw e (
        ground (
          arith,
          find-erase (insert m name node) name k,
          find-insert m name k node,
          same_iff name k,
        ))
    | inr (p, e) ↦ rw e (
        ground (
          arith,
          find-insert (insert m name node) name k p,
          find-insert m name k node,
          same_iff name k,
        ))
  ]
