-- ===== src/Aslr/Search.antt =====
-- `find_executable`: which image of the list is taken.
use perfect_build_radar_touc.Base.{
  ℕ, zero, suc, ◌+◌, ◌≤◌, ◌<◌, ◌≡◌, ◌⊎◌, inl, inr, refl, subst, ◌∙◌, true, some, arith, ◌==◌,
  Bool-cases, Option-cases,
}
use perfect_build_radar_touc.MachO.{Header, Loader}
use perfect_build_radar_touc.Remote.{Vm, validate_ptr}
use perfect_build_radar_touc.Aslr.{read_header, is_executable, entry_load_addr, find_executable}

module _ (vm : Vm) (l : Loader) where
  -- The code takes the image at `a` for an executable.
  abbrev pub IsExecutable : ℕ → Type 0
  IsExecutable a =
      (validate_ptr a ≡ true)
      × ((mh : Header) × (read_header vm l a ≡ some mh) × (is_executable vm l mh ≡ true))

  -- The result `a` of the search over the entries `i .. i + n`.
  abbrev pub IsFirst : ℕ → ℕ → ℕ → ℕ → Type 0
  IsFirst array i n a =
      ((a ≡ 0) × ((j : ℕ) → i ≤ j → j < i + n → ¬ (IsExecutable (entry_load_addr vm l array j))))
      ⊎ ((j : ℕ) × (i ≤ j)
          × (j < i + n)
          × (a ≡ entry_load_addr vm l array j)
          × IsExecutable a
          × ((k : ℕ) → i ≤ k → k < j → ¬ (IsExecutable (entry_load_addr vm l array k))))

  entry-cases :
      (array i n : ℕ)
      → ((find_executable vm l array i (suc n) ≡ entry_load_addr vm l array i)
          × IsExecutable (entry_load_addr vm l array i))
        ⊎ ((find_executable vm l array i (suc n) ≡ find_executable vm l array (i + 1) n)
            × ¬ (IsExecutable (entry_load_addr vm l array i)))
  unfolding find_executable
  entry-cases array i n =
      let a = entry_load_addr vm l array i in
      elim (Bool-cases (validate_ptr a)) [
        | inr bad ↦ inr (ground arith, λ x. ground arith)
        | inl good ↦ elim (Option-cases (read_header vm l a)) [
          | inl e ↦ inr (ground arith, λ x. ground arith)
          | inr (mh, e) ↦ elim (Bool-cases (is_executable vm l mh)) [
            | inl y ↦ inl (ground arith, (good, (mh, e, y)))
            | inr n ↦ inr (ground arith, λ x. ground arith)
          ]
        ]
      ]

  -- `find_executable` returns the first entry that is an executable, or 0 where there is none.
  pub find_executable-IsFirst : (array i n : ℕ) → IsFirst array i n (find_executable vm l array i n)
  unfolding find_executable
  find_executable-IsFirst array i zero = inl (refl, λ j lo hi x. omega arith)
  find_executable-IsFirst array i (suc n) = elim (entry-cases array i n) [
    | inl (e, x) ↦ rw e (inr (i, omega arith, omega arith, refl, x, λ k lo hi y. omega arith))
    | inr (e, bad) ↦ elim (find_executable-IsFirst array (i + 1) n) [
      | inl (z, no_one) ↦ inl (e ∙ z, extend bad no_one)
      | inr (j, lo, hi, a, x, before) ↦
          rw e (inr (j, omega arith, omega arith, a, x, extend_before bad before))
    ]
  ]
    where
      extend :
          ¬ (IsExecutable (entry_load_addr vm l array i))
          → ((j : ℕ) → i + 1 ≤ j → j < i + 1 + n → ¬ (IsExecutable (entry_load_addr vm l array j)))
          → (j : ℕ) → i ≤ j
          → j < i + suc n
          → ¬ (IsExecutable (entry_load_addr vm l array j))
      extend bad later j lo hi x = elim (Bool-cases (i == j)) [
        | inl e ↦
            let same : j ≡ i = ground arith in
            bad (subst (λ k. IsExecutable (entry_load_addr vm l array k)) same x)
        | inr ne ↦ later j (ground arith) (omega arith) x
      ]

      extend_before :
          {m : ℕ}
          → ¬ (IsExecutable (entry_load_addr vm l array i))
          → ((k : ℕ) → i + 1 ≤ k → k < m → ¬ (IsExecutable (entry_load_addr vm l array k)))
          → (k : ℕ) → i ≤ k
          → k < m
          → ¬ (IsExecutable (entry_load_addr vm l array k))
      extend_before bad later k lo hi x = elim (Bool-cases (i == k)) [
        | inl e ↦
            let same : k ≡ i = ground arith in
            bad (subst (λ k. IsExecutable (entry_load_addr vm l array k)) same x)
        | inr ne ↦ later k (ground arith) hi x
      ]
