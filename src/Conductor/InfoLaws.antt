-- ===== src/Conductor/InfoLaws.antt =====
-- db/api.py, `update_transfer_action_info_for_instance`: the task info after a task's result was
-- merged into it.
use cloudshift.Prelude.{
  ℕ, ◌≡◌, refl, false, Option, none, some, List, [], ◌∷◌, map, Dict, lookup, insert, lookup-insert,
  ◌==◌, if◌then◌else◌, arith, All, Bool-cases, inl, inr, ==_iff, ◌∙◌,
}
use cloudshift.Conductor.Store.{Store}
use cloudshift.Conductor.Results.{merge, or_empty, update_action_info}
use cloudshift.Conductor.Evolves.{Distinct}

abbrev pub keys : Dict ℕ → List ℕ
keys dict = map (λ e. e.0) dict

abbrev pub or_else : Option ℕ → Option ℕ → Option ℕ
or_else none other = other
or_else (some v) other = some v

lookup-missing :
    (k : ℕ) (dict : Dict ℕ) → All (λ j. (k == j) ≡ false) (keys dict) → lookup k dict ≡ none
unfolding lookup
lookup-missing k [] new = refl
lookup-missing k ((j, v) ∷ dict) new = ground (arith, new.0, lookup-missing k dict new.1)

lookup-merge :
    (new old : Dict ℕ) (k : ℕ)
    → Distinct (keys new)
    → lookup k (merge old new) ≡ or_else (lookup k new) (lookup k old)
unfolding merge lookup
lookup-merge [] old k d = refl
lookup-merge ((j, v) ∷ new) old k (fresh, d) = lookup-merge new (insert j v old) k d ∙ step
  where
    step :
        or_else (lookup k new) (lookup k (insert j v old))
        ≡ or_else (if j == k then some v else lookup k new) (lookup k old)
    step = elim (Bool-cases (j == k)) [
      | inl same ↦
          let gone : lookup k new ≡ none =
            rw ((==_iff j k).0 same) at (lookup-missing j new fresh) in
          rw (lookup-insert old j v k, same, gone) refl
      | inr other ↦ rw (lookup-insert old j v k, other) refl
    ]

-- The task info of an instance.
abbrev pub info_at : ℕ → Store → Dict ℕ
info_at name s = or_empty (lookup name s.info)

-- After the update the instance's task info has the new value of each key that has one and the old
-- value of each other key, and the task info of other instances is as before, if no key is there
-- twice among the new ones.
pub update_action_info_lem :
    (name : ℕ) (new : Dict ℕ) (s : Store) (other k : ℕ)
    → Distinct (keys new)
    → lookup k (info_at other (update_action_info name new s).1) ≡ (
        if name == other
        then or_else (lookup k new) (lookup k (info_at name s))
        else lookup k (info_at other s))
unfolding update_action_info lookup
update_action_info_lem name [] s other k d = elim (Bool-cases (name == other)) [
  | inl same ↦ rw same (rw ((==_iff name other).0 same) refl)
  | inr differ ↦ rw differ refl
]
update_action_info_lem name ((j, v) ∷ new) s other k d = elim (Bool-cases (name == other)) [
  | inl same ↦
      rw (lookup-insert s.info name (merge (info_at name s) ((j, v) ∷ new)) other, same)
        (lookup-merge ((j, v) ∷ new) (info_at name s) k d)
  | inr differ ↦
      rw (lookup-insert s.info name (merge (info_at name s) ((j, v) ∷ new)) other, differ) refl
]
