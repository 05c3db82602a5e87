-- ===== src/Net/Adapters/Addresses.antt =====
-- The walk over the adapters follows the pointer to the first address of each.
use heim.Prelude.{
  ℕ, ◌≡◌, refl, ◌∙◌, inl, inr, ◌⊎◌, none, some, Option, List, [], ◌∷◌, ◌++◌, if_true, ==_iff,
}
use heim.Outcome.{ok, panic}
use heim.Common.Errors.{Result}
use heim.Net.Adapters.{
  Winsock, Nic, Sockaddr, UnicastAddress, AdapterAddresses, nic_at, nics_from, nics_of, base_nic,
  all_nics, nic,
}

-- A result that is no error.
abbrev Plain : {A : Type 0} → Result A → Type 0
Plain {A} r = (r ≡ panic) ⊎ ((a : A) × (r ≡ ok a))

module _ (c : Winsock) where
  nic_at-Plain :
      (base : Nic) (cur : UnicastAddress) (sa : Option Sockaddr) → Plain (nic_at c base cur sa)
  unfolding nic_at
  nic_at-Plain base cur none = inl refl
  nic_at-Plain base cur (some sa) = inr (_, refl)

  nics_from-Plain : (base : Nic) (unicast : List UnicastAddress) → Plain (nics_from c base unicast)
  unfolding nics_from
  nics_from-Plain base [] = inr ([], refl)
  nics_from-Plain base (cur ∷ rest) = elim (nic_at-Plain base cur cur.address.lp_sockaddr) [
    | inl e ↦ inl (rw e refl)
    | inr (this, e) ↦ elim (nics_from-Plain base rest) [
      | inl e' ↦ inl (rw (e, e') refl)
      | inr (nics, e') ↦ inr (this ∷ nics, rw (e, e') refl)
    ]
  ]

  nics_of-Plain : (base : Nic) (unicast : List UnicastAddress) → Plain (nics_of c base unicast)
  unfolding nics_of
  nics_of-Plain base [] = inl refl
  nics_of-Plain base (cur ∷ rest) = nics_from-Plain base (cur ∷ rest)

  all_nics_without_address :
      (before rest : List AdapterAddresses) (iface : AdapterAddresses)
      → iface.unicast ≡ []
      → all_nics c (before ++ iface ∷ rest) ≡ panic
  unfolding all_nics nics_of
  all_nics_without_address [] rest iface h = rw h refl
  all_nics_without_address (other ∷ before) rest iface h =
      elim (nics_of-Plain (base_nic c other) other.unicast) [
        | inl e ↦ rw e refl
        | inr (nics, e) ↦ rw (e, all_nics_without_address before rest iface h) refl
      ]

  -- If one of the adapters has no address, the null pointer to its first one is followed, and no
  -- adapter is reported, wherever it stands in the list.
  pub nic_without_address :
      (size_answer : ℕ) (before rest : List AdapterAddresses) (iface : AdapterAddresses)
      → size_answer ≡ c.error_buffer_overflow
      → iface.unicast ≡ []
      → nic c size_answer (ok (before ++ iface ∷ rest)) ≡ panic
  unfolding nic
  nic_without_address size_answer [] rest iface e h =
      if_true _ _ ((==_iff size_answer c.error_buffer_overflow).1 e)
      ∙ all_nics_without_address [] rest iface h
  nic_without_address size_answer (other ∷ before) rest iface e h =
      if_true _ _ ((==_iff size_answer c.error_buffer_overflow).1 e)
      ∙ all_nics_without_address (other ∷ before) rest iface h
