-- ===== src/Mapper/Registry.antt =====
-- The pool of registered handles is a set of addresses.
use mathlib.Core.Path.{subst}
use rk_hardware_libgralloc_b.Mapper.Pool.{erase, is_registered, pool_add, pool_get, pool_remove}
use rk_hardware_libgralloc_b.Prelude.{
  ==_iff, Bool, Bool-cases, List, [], ap, arith, false, if◌then◌else◌, inl, inr, none, not, refl,
  some, true, ℕ, ◌==◌, ◌∙◌, ◌∷◌, ◌≡◌,
}

-- What the pool stands for: which addresses are in the set.
abbrev pub Represents : List ℕ → (ℕ → Bool) → Type 0
Represents pool members = (address : ℕ) → is_registered pool address ≡ members address

abbrev pub inserted : (ℕ → Bool) → ℕ → ℕ → Bool
inserted members buffer address = if buffer == address then true else members address

abbrev pub deleted : (ℕ → Bool) → ℕ → ℕ → Bool
deleted members buffer address = if buffer == address then false else members address

pub is_registered-erase :
    (pool : List ℕ) (buffer address : ℕ)
    → is_registered (erase pool buffer) address
      ≡ (if buffer == address then false else is_registered pool address)
unfolding is_registered erase
is_registered-erase [] buffer address = ground arith
is_registered-erase (first ∷ pool) buffer address =
    let rest = is_registered-erase pool buffer address in
    elim (Bool-cases (first == buffer)) [
      | inl same ↦ rw (same, erase) (ground (arith, rest))
      | inr other ↦ rw (other, erase) (ground (arith, rest))
    ]

pub is_registered-add :
    (pool : List ℕ) (buffer address : ℕ)
    → is_registered (pool_add pool buffer).1 address
      ≡ (if buffer == address then true else is_registered pool address)
unfolding pool_add is_registered
is_registered-add pool buffer address = elim (Bool-cases (is_registered pool buffer)) [
  | inl old ↦
      rw (old, pool_add)
        (elim (Bool-cases (buffer == address)) [
          | inl same ↦
              let is_buffer = (==_iff buffer address).0 same in
              rw same (subst (λ other. is_registered pool other ≡ true) is_buffer old)
          | inr other ↦ rw other refl
        ])
  | inr new ↦ rw (new, pool_add) refl
]

pool_add-is_new :
    (pool : List ℕ) (buffer : ℕ) → (pool_add pool buffer).0 ≡ not (is_registered pool buffer)
unfolding pool_add
pool_add-is_new pool buffer = elim (Bool-cases (is_registered pool buffer)) [
  | inl old ↦ rw old refl
  | inr new ↦ rw new refl
]

-- The pool refines a set of addresses: where it represents a set, add reports whether the address
-- was new and gives the set with it, remove gives the set without it and returns the address exactly
-- when it was a member, and so does get, which changes nothing.
pub pool-refines :
    (pool : List ℕ) (members : ℕ → Bool) (buffer : ℕ)
    → Represents pool members
    → ((pool_add pool buffer).0 ≡ not (members buffer))
      × Represents (pool_add pool buffer).1 (inserted members buffer)
      × ((pool_remove pool buffer).0 ≡ (if members buffer then some buffer else none))
      × Represents (pool_remove pool buffer).1 (deleted members buffer)
      × (pool_get pool buffer ≡ (if members buffer then some buffer else none))
unfolding pool_remove pool_get
pool-refines pool members buffer same = (
  pool_add-is_new pool buffer ∙ ap not (same buffer),
  λ address. is_registered-add pool buffer address ∙ rw (same address) refl,
  rw (same buffer) refl,
  λ address. is_registered-erase pool buffer address ∙ rw (same address) refl,
  rw (same buffer) refl,
)
