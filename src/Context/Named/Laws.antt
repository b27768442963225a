-- ===== src/Context/Named/Laws.antt =====
-- Naming keeps the two maps inverse to one another.
use smtlibparser.Prelude.{
  ℕ, ◌≡◌, some, true, Bytes, same_iff, same_refl, arith, Bool-cases, Option-cases, inl, inr,
}
use smtlibparser.Dict
use smtlibparser.Dict.{Dict}
use smtlibparser.PtrMap
use smtlibparser.PtrMap.{PtrMap}
use smtlibparser.Context.Named.{
  Names, drop_previous, steal, bind_name, already_bound, name_assertion, get_assertion_name,
}

-- Every name refers to one assertion, and every assertion carries at most one name.
pub record IsBijection (n : Names) : Type 0 where
  pub forward :
      (name : Bytes) (node : ℕ)
      → Dict.find n.named name ≡ some node
      → PtrMap.find n.names node ≡ some name
  pub backward :
      (node : ℕ) (name : Bytes)
      → PtrMap.find n.names node ≡ some name
      → Dict.find n.named name ≡ some node

-- Dropping the earlier name of an assertion.
drop_previous-IsBijection :
    (name : Bytes) (node : ℕ) (n : Names) → IsBijection n → IsBijection (drop_previous name node n)
unfolding drop_previous
drop_previous-IsBijection name node n b = elim (Option-cases (PtrMap.find n.names node)) [
  | inl e ↦ rw (e, drop_previous) b
  | inr (previous, e) ↦ record {
    forward = λ x k h. ground (
      arith,
      b.forward x k,
      Dict.find-erase n.named previous x,
      PtrMap.find-erase n.names node k,
      same_iff previous x,
    );
    backward = λ k x h. ground (
      arith,
      b.backward k x,
      b.backward node previous e,
      Dict.find-erase n.named previous x,
      PtrMap.find-erase n.names node k,
      same_iff previous x,
    );
  }
]

-- After that the assertion has no name, or the new one already.
drop_previous_unnamed :
    (name : Bytes) (node : ℕ) (n : Names) (x : Bytes)
    → PtrMap.find (drop_previous name node n).names node ≡ some x
    → x ≡ name
unfolding drop_previous
drop_previous_unnamed name node n x h = elim (Option-cases (PtrMap.find n.names node)) [
  | inl e ↦ ground arith
  | inr (previous, e) ↦ ground (arith, PtrMap.find-erase n.names node node, same_iff previous name)
]

-- Giving a name to an assertion that has no other.
bind_name-steal-IsBijection :
    (name : Bytes) (node : ℕ) (n : Names)
    → IsBijection n
    → ((x : Bytes) → PtrMap.find n.names node ≡ some x → x ≡ name)
    → IsBijection (bind_name name node (steal name node n))
unfolding bind_name steal
bind_name-steal-IsBijection name node n b only = elim (Option-cases (Dict.find n.named name)) [
  | inl e ↦ record {
    forward = λ x k h. ground (
      arith,
      b.forward x k,
      b.backward k x,
      only x,
      Dict.find-insert n.named name x node,
      PtrMap.find-insert n.names node k name,
      same_iff name x,
    );
    backward = λ k x h. ground (
      arith,
      b.backward k x,
      b.forward x k,
      only x,
      Dict.find-insert n.named name x node,
      PtrMap.find-insert n.names node k name,
      same_iff name x,
    );
  }
  | inr (other, e) ↦ record {
    forward = λ x k h. ground (
      arith,
      b.forward x k,
      b.forward name other e,
      only x,
      Dict.find-insert n.named name x node,
      PtrMap.find-insert n.names node k name,
      PtrMap.find-insert (PtrMap.erase n.names other) node k name,
      PtrMap.find-erase n.names other k,
      same_iff name x,
    );
    backward = λ k x h. ground (
      arith,
      b.backward k x,
      b.forward name other e,
      only x,
      Dict.find-insert n.named name x node,
      PtrMap.find-insert n.names node k name,
      PtrMap.find-insert (PtrMap.erase n.names other) node k name,
      PtrMap.find-erase n.names other k,
      same_iff name x,
    );
  }
]

module _ (name : Bytes) (node : ℕ) where
  -- Binding the name makes both lookups find it, whatever was displaced.
  inserted :
      (m : Names)
      → (Dict.find (bind_name name node (steal name node m)).named name ≡ some node)
        × (PtrMap.find (bind_name name node (steal name node m)).names node ≡ some name)
  unfolding bind_name
  inserted m =
      let s = steal name node m in
      (
        ground (arith, Dict.find-insert s.named name name node, same_refl name),
        ground (arith, PtrMap.find-insert s.names node node name),
      )

  already_bound-find :
      (n : Names) → already_bound name node n ≡ true → Dict.find n.named name ≡ some node
  unfolding already_bound
  already_bound-find n h = elim (Option-cases (Dict.find n.named name)) [
    | inl e ↦ ground arith
    | inr (other, e) ↦ ground arith
  ]

module _ (name : Bytes) (node : ℕ) (n : Names) (b : IsBijection n) where
  -- Naming an assertion, in a context whose two maps are inverse to one another, keeps them so,
  -- whatever it displaces.
  pub name_assertion-IsBijection : IsBijection (name_assertion name node n)
  unfolding name_assertion
  name_assertion-IsBijection = elim (Bool-cases (already_bound name node n)) [
    | inl e ↦ rw e b
    | inr e ↦ rw e (
        bind_name-steal-IsBijection name node (drop_previous name node n)
          (drop_previous-IsBijection name node n b) (drop_previous_unnamed name node n))
  ]

  -- After naming an assertion, in a context whose two maps are inverse to one another, the name
  -- refers to the assertion, and the assertion carries the name.
  pub name_assertion-get_assertion_name :
      (Dict.find (name_assertion name node n).named name ≡ some node)
      × (get_assertion_name (name_assertion name node n) node ≡ some name)
  unfolding name_assertion get_assertion_name
  name_assertion-get_assertion_name = elim (Bool-cases (already_bound name node n)) [
    | inl e ↦ let h = already_bound-find name node n e in rw e (h, b.forward name node h)
    | inr e ↦ rw e (inserted name node (drop_previous name node n))
  ]
