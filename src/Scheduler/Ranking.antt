-- ===== src/Scheduler/Ranking.antt =====
-- The scores of worker services, and their order.
use cloudshift.Prelude.{
  ℕ, ◌+◌, ◌≤◌, ◌≡◌, refl, ap, ◌∙◌, Bool, false, none, some, List, [], ◌∷◌, map, all, filter,
  is_empty, All, leb, ◌==◌, if◌then◌else◌, arith, Bool-cases, inl, inr,
}
use cloudshift.Scheduler.Filters.{Service, Filter}
use cloudshift.Scheduler.Selection.{
  found, score_service, score_services, insert_score, sort_scores, ranked,
  get_weighted_filtered_services,
}

abbrev pub Descending : List (Service × ℕ) → Type 0
Descending [] = Unit
Descending (x ∷ xs) = All (λ y. y.1 ≤ x.1) xs × Descending xs

-- The services of one score, in the order of the list.
abbrev pub with_rank : ℕ → List (Service × ℕ) → List (Service × ℕ)
with_rank n scores = filter (λ x. x.1 == n) scores

All-insert_score :
    (n : ℕ) (x : Service × ℕ) (ys : List (Service × ℕ))
    → x.1 ≤ n
    → All (λ y. y.1 ≤ n) ys
    → All (λ y. y.1 ≤ n) (insert_score x ys)
All-insert_score n x [] le a = (le, tt)
All-insert_score n x (y ∷ ys) le (b, a) = elim (Bool-cases (leb y.1 x.1)) [
  | inl h ↦ rw h (le, (b, a))
  | inr h ↦ rw h (b, All-insert_score n x ys le a)
]

All-le-weaken :
    (m n : ℕ) (ys : List (Service × ℕ)) → m ≤ n → All (λ y. y.1 ≤ m) ys → All (λ y. y.1 ≤ n) ys
All-le-weaken m n [] le a = tt
All-le-weaken m n (y ∷ ys) le (b, a) = (omega (arith, le, b), All-le-weaken m n ys le a)

insert_score-Descending :
    (x : Service × ℕ) (ys : List (Service × ℕ)) → Descending ys → Descending (insert_score x ys)
insert_score-Descending x [] d = (tt, tt)
insert_score-Descending x (y ∷ ys) (a, d) = elim (Bool-cases (leb y.1 x.1)) [
  | inl h ↦ let le : y.1 ≤ x.1 = ground arith in rw h ((le, All-le-weaken y.1 x.1 ys le a), (a, d))
  | inr h ↦
      let le : x.1 ≤ y.1 = ground arith in
      rw h (All-insert_score y.1 x ys le a, insert_score-Descending x ys d)
]

sort_scores-Descending : (xs : List (Service × ℕ)) → Descending (sort_scores xs)
sort_scores-Descending [] = tt
sort_scores-Descending (x ∷ xs) =
    insert_score-Descending x (sort_scores xs) (sort_scores-Descending xs)

with_rank-insert :
    (n : ℕ) (x : Service × ℕ) (ys : List (Service × ℕ))
    → with_rank n (insert_score x ys) ≡ with_rank n (x ∷ ys)
with_rank-insert n x [] = refl
with_rank-insert n x (y ∷ ys) = ground (arith, with_rank-insert n x ys)

with_rank-sort : (n : ℕ) (xs : List (Service × ℕ)) → with_rank n (sort_scores xs) ≡ with_rank n xs
with_rank-sort n [] = refl
with_rank-sort n (x ∷ xs) =
    ground (arith, with_rank-insert n x (sort_scores xs), with_rank-sort n xs)

-- The services that no filter rates below the minimum, with the sums of their ratings.
abbrev pub total : List Filter → Service → ℕ
total [] s = 0
total (rate ∷ filters) s = rate s + total filters s

abbrev pub accepted : (minimum : ℕ) → List Filter → Service → Bool
accepted minimum filters s = all (λ rate. leb minimum (rate s)) filters

pub score_service_lem :
    (minimum sum : ℕ) (filters : List Filter) (s : Service)
    → score_service minimum sum filters s
      ≡ (if accepted minimum filters s then some (sum + total filters s) else none)
unfolding score_service
score_service_lem minimum sum [] s = ap some (omega arith)
score_service_lem minimum sum (rate ∷ filters) s =
    let assoc : (sum + rate s) + total filters s ≡ sum + (rate s + total filters s) = omega arith in
    ground (arith, score_service_lem minimum (sum + rate s) filters s, assoc)

-- The independent description of the scores.
abbrev pub scored : (minimum : ℕ) → List Filter → List Service → List (Service × ℕ)
scored minimum filters services =
    map (λ s. (s, total filters s)) (filter (accepted minimum filters) services)

pub score_services_lem :
    (minimum : ℕ) (filters : List Filter) (services : List Service)
    → score_services minimum filters services ≡ scored minimum filters services
unfolding score_services
score_services_lem minimum filters [] = refl
score_services_lem minimum filters (s ∷ services) = elim (Bool-cases (accepted minimum filters s)) [
  | inl h ↦
      rw (score_service_lem minimum 0 filters s, h, score_services_lem minimum filters services)
        (ap (λ n. (s, n) ∷ scored minimum filters services) (omega arith))
  | inr h ↦
      rw (score_service_lem minimum 0 filters s, h, score_services_lem minimum filters services)
        refl
]

ranked_lem :
    (scores ranking : List (Service × ℕ))
    → ranked scores ≡ found ranking
    → ranking ≡ sort_scores scores
ranked_lem [] ranking h = ground (arith, h)
ranked_lem (x ∷ scores) ranking h = ground (arith, h)

-- With filters, the result is sorted by descending score, and the services of each score are those
-- that no filter rates below the minimum and whose ratings have that sum, in the order in which
-- they were given.
pub get_weighted_filtered_services-Descending :
    (minimum : ℕ) (filters : List Filter) (services : List Service) (ranking : List (Service × ℕ))
    → is_empty filters ≡ false
    → get_weighted_filtered_services services filters minimum ≡ found ranking
    → Descending ranking
      × ((n : ℕ) → with_rank n ranking ≡ with_rank n (scored minimum filters services))
unfolding get_weighted_filtered_services
get_weighted_filtered_services-Descending minimum [] services ranking e h = ground (arith, e)
get_weighted_filtered_services-Descending minimum (f ∷ fs) services ranking e h =
    let is : ranking ≡ sort_scores (scored minimum (f ∷ fs) services) =
      ranked_lem (score_services minimum (f ∷ fs) services) ranking h
      ∙ ap sort_scores (score_services_lem minimum (f ∷ fs) services) in
    rw is (
      sort_scores-Descending (scored minimum (f ∷ fs) services),
      λ n. with_rank-sort n (scored minimum (f ∷ fs) services),
    )
