-- ===== src/Routing/Choosing.antt =====
-- routing/policy.cpp: what a built-in policy chooses, for every policy and on every branch.
use nexus_lab.Prelude.{
  ℕ, zero, suc, ◌+◌, ◌%◌, ◌≤◌, ◌<◌, ◌≡◌, ◌≢◌, ◌⊎◌, refl, sym, ◌∙◌, inl, inr, some, List, [], ◌∷◌,
  arith, length, get_elem?, All, ltb, ◌==◌, Bool-cases, ltb→lt, ==_iff,
}
use mathlib.Core.Path.{subst}
use nexus_lab.Prelude.Except.{Error, Result, ok, err, Result-cases}
use nexus_lab.Routing.Policy.{
  Route, RouteChoice, PolicyInput, Kind, shortest, ecmp, least_loaded, queue_aware, score,
  choose_rest, choose_scored, choose_kind, choose, no_candidates, scored_reason, ecmp_hash,
}

-- The score of the path is known, and at least, or above, `least`.
abbrev pub AtLeast : Kind → PolicyInput → ℕ → Route → Type 0
AtLeast kind input least path = (s : ℕ) × (score kind input path ≡ ok s) × (least ≤ s)

abbrev pub Above : Kind → PolicyInput → ℕ → Route → Type 0
Above kind input least path = (s : ℕ) × (score kind input path ≡ ok s) × (least < s)

abbrev pub first : ℕ → List Route → List Route
first zero paths = []
first (suc n) [] = []
first (suc n) (path ∷ paths) = path ∷ first n paths

-- The path of number `k` has the score `best`, no path has less, and each one before it has more.
pub record IsBest (kind : Kind) (input : PolicyInput) (k best : ℕ) (paths : List Route)
    : Type 0 where
  pub scored : (path : Route) × (get_elem? paths k ≡ some path) × (score kind input path ≡ ok best)
  pub least : All (AtLeast kind input best) paths
  pub earliest : All (Above kind input best) (first k paths)

-- Some path's score throws.
abbrev pub Throws : Kind → PolicyInput → Error → List Route → Type 0
Throws kind input e paths =
    (k : ℕ) × (path : Route) × (get_elem? paths k ≡ some path) × (score kind input path ≡ err e)

-- How the loop ends: by an exception, with the best choice so far, or with a better path.
abbrev Ends : Kind → PolicyInput → RouteChoice → ℕ → List Route → Result RouteChoice → Type 0
Ends kind input best index paths r =
    ((e : Error) × (r ≡ err e) × Throws kind input e paths)
    ⊎ ((c : RouteChoice) × (r ≡ ok c)
        × (((c.candidate ≡ best.candidate)
              × (c.score ≡ best.score)
              × All (AtLeast kind input best.score) paths)
            ⊎ ((k : ℕ) × (c.candidate ≡ index + k)
                × (c.score < best.score)
                × IsBest kind input k c.score paths)))

better :
    (kind : Kind) (input : PolicyInput) (best : RouteChoice) (index s : ℕ) (path : Route)
    (paths : List Route) (r : Result RouteChoice)
    → score kind input path ≡ ok s
    → s < best.score
    → Ends kind input (record best { candidate = index; score = s }) (index + 1) paths r
    → Ends kind input best index (path ∷ paths) r
better kind input best index s path paths r scored less (inl (e, throws, (k, p, at, bad))) =
    inl (e, throws, (suc k, p, at, bad))
better kind input best index s path paths r scored less (inr (c, same, inl (here, size, rest))) =
    inr (
      c,
      same,
      inr (
        zero,
        omega (arith, here),
        omega (arith, size, less),
        record {
          scored = (path, refl, rw size scored);
          least = (
            (s, scored, omega (arith, size)),
            subst (λ n. All (AtLeast kind input n) paths) (sym size) rest,
          );
          earliest = tt;
        },
      ),
    )
better kind input best index s path paths r scored less (inr (c, same, inr (k, here, size, is))) =
    inr (
      c,
      same,
      inr (
        suc k,
        omega (arith, here),
        omega (arith, size, less),
        record {
          scored = is.scored;
          least = ((s, scored, omega (arith, size)), is.least);
          earliest = ((s, scored, size), is.earliest);
        },
      ),
    )

not_better :
    (kind : Kind) (input : PolicyInput) (best : RouteChoice) (index s : ℕ) (path : Route)
    (paths : List Route) (r : Result RouteChoice)
    → score kind input path ≡ ok s
    → best.score ≤ s
    → Ends kind input best (index + 1) paths r
    → Ends kind input best index (path ∷ paths) r
not_better kind input best index s path paths r scored more (inl (e, throws, (k, p, at, bad))) =
    inl (e, throws, (suc k, p, at, bad))
not_better kind input best index s path paths r scored more
      (inr (c, same, inl (here, size, rest))) =
    inr (c, same, inl (here, size, ((s, scored, more), rest)))
not_better kind input best index s path paths r scored more
      (inr (c, same, inr (k, here, size, is))) =
    inr (
      c,
      same,
      inr (
        suc k,
        omega (arith, here),
        size,
        record {
          scored = is.scored;
          least = ((s, scored, omega (arith, size, more)), is.least);
          earliest = ((s, scored, omega (arith, size, more)), is.earliest);
        },
      ),
    )

choose_rest_cases :
    (kind : Kind) (input : PolicyInput) (best : RouteChoice) (index : ℕ) (paths : List Route)
    → Ends kind input best index paths (choose_rest kind input best index paths)
unfolding choose_rest
choose_rest_cases kind input best index [] = inr (best, refl, inl (refl, refl, tt))
choose_rest_cases kind input best index (path ∷ paths) =
    elim (Result-cases (score kind input path)) [
      | inr (e, bad) ↦ inl (e, rw (bad, choose_rest) refl, (zero, path, refl, bad))
      | inl (s, scored) ↦ elim (Bool-cases (ltb s best.score)) [
        | inl less ↦
            let next : RouteChoice = record best { candidate = index; score = s } in
            subst (λ r. Ends kind input best index (path ∷ paths) r)
              (sym (rw (scored, choose_rest, less) refl))
              (better kind input best index s path paths
                (choose_rest kind input next (index + 1) paths) scored (ltb→lt _ _ less)
                (choose_rest_cases kind input next (index + 1) paths))
        | inr more ↦
            subst (λ r. Ends kind input best index (path ∷ paths) r)
              (sym (rw (scored, choose_rest, more) refl))
              (not_better kind input best index s path paths
                (choose_rest kind input best (index + 1) paths) scored (ground arith)
                (choose_rest_cases kind input best (index + 1) paths))
      ]
    ]

-- What is chosen by score is one of the candidates, the first of those of the least score.
abbrev pub ScoredAnswers : Kind → PolicyInput → List Route → Result RouteChoice → Type 0
ScoredAnswers kind input paths r =
    ((e : Error) × (r ≡ err e) × Throws kind input e paths)
    ⊎ ((c : RouteChoice) × (r ≡ ok c) × IsBest kind input c.candidate c.score paths)

-- The first path and what the loop makes of the others.
with_first :
    (kind : Kind) (input : PolicyInput) (best : RouteChoice) (path : Route) (paths : List Route)
    (r : Result RouteChoice)
    → best.candidate ≡ 0
    → score kind input path ≡ ok best.score
    → Ends kind input best 1 paths r
    → ScoredAnswers kind input (path ∷ paths) r
with_first kind input best path paths r start scored (inl (e, throws, (k, p, at, bad))) =
    inl (e, throws, (suc k, p, at, bad))
with_first kind input best path paths r start scored (inr (c, same, inl (here, size, rest))) = inr (
  c,
  same,
  rw (here ∙ start) record {
    scored = (path, refl, rw size scored);
    least = (
      (best.score, scored, omega (arith, size)),
      subst (λ n. All (AtLeast kind input n) paths) (sym size) rest,
    );
    earliest = tt;
  },
)
with_first kind input best path paths r start scored (inr (c, same, inr (k, here, size, is))) =
    inr (
      c,
      same,
      rw (next k here) record {
        scored = is.scored;
        least = ((best.score, scored, omega (arith, size)), is.least);
        earliest = ((best.score, scored, size), is.earliest);
      },
    )
  where
    next : {n : ℕ} (k : ℕ) → n ≡ 1 + k → n ≡ suc k
    next k h = omega (arith, h)

choose_scored_cases :
    (kind : Kind) (input : PolicyInput) (paths : List Route)
    → paths ≢ []
    → ScoredAnswers kind input paths (choose_scored kind input paths)
unfolding choose_scored
choose_scored_cases kind input [] some_paths = absurd (some_paths refl)
choose_scored_cases kind input (path ∷ paths) some_paths =
    elim (Result-cases (score kind input path)) [
      | inr (e, bad) ↦ inl (e, rw (bad, choose_scored) refl, (zero, path, refl, bad))
      | inl (s, scored) ↦
          let start : RouteChoice = record {
            candidate = 0;
            score = s;
            reason = scored_reason kind;
          } in
          subst (λ r. ScoredAnswers kind input (path ∷ paths) r)
            (sym (rw (scored, choose_scored) refl))
            (with_first kind input start path paths (choose_rest kind input start 1 paths) refl
              scored (choose_rest_cases kind input start 1 paths))
    ]

-- What each policy chooses when it has candidates and bytes to send.
abbrev pub Chooses : Kind → PolicyInput → Result RouteChoice → Type 0
Chooses shortest input r = (c : RouteChoice) × (r ≡ ok c) × (c.candidate ≡ 0)
Chooses ecmp input r =
    (c : RouteChoice) × (r ≡ ok c)
    × (c.candidate ≡ ecmp_hash input.request input.seed % length input.candidates)
    × (c.candidate < length input.candidates)
Chooses least_loaded input r = ScoredAnswers least_loaded input input.candidates r
Chooses queue_aware input r = ScoredAnswers queue_aware input input.candidates r

choose_kind-Chooses :
    (kind : Kind) (input : PolicyInput)
    → 0 < length input.candidates
    → Chooses kind input (choose_kind kind input)
choose_kind-Chooses shortest input some_paths = (_, refl, refl)
choose_kind-Chooses ecmp input some_paths = (_, refl, refl, omega (arith, some_paths))
choose_kind-Chooses least_loaded input some_paths =
    choose_scored_cases least_loaded input input.candidates (λ h. ground arith)
choose_kind-Chooses queue_aware input some_paths =
    choose_scored_cases queue_aware input input.candidates (λ h. ground arith)

-- How `choose` answers, by cases.
abbrev pub ChooseAnswers : Kind → PolicyInput → Type 0
ChooseAnswers kind input =
    ((choose kind input ≡ no_candidates)
      × ((length input.candidates ≡ 0)
          ⊎ (input.request.bytes ≡ 0)
          ⊎ (input.request.maximum_chunk_bytes ≡ 0)))
    ⊎ ((0 < length input.candidates)
        × (0 < input.request.bytes)
        × (0 < input.request.maximum_chunk_bytes)
        × Chooses kind input (choose kind input))

-- Every built-in policy refuses a request without candidates or bytes, and otherwise answers: the
-- shortest path is the first candidate, ECMP is the candidate that the hash of the flow and the
-- seed numbers, and the other two choose the first among the candidates of the least score, or
-- throw what the score of a candidate throws.
pub choose_cases : (kind : Kind) (input : PolicyInput) → ChooseAnswers kind input
unfolding choose
choose_cases kind input = elim (Bool-cases (length input.candidates == 0)) [
  | inl none_given ↦ rw none_given (inl (refl, inl ((==_iff _ _).0 none_given)))
  | inr given ↦ elim (Bool-cases (input.request.bytes == 0)) [
    | inl nothing ↦ rw (given, nothing) (inl (refl, inr (inl ((==_iff _ _).0 nothing))))
    | inr bytes ↦ elim (Bool-cases (input.request.maximum_chunk_bytes == 0)) [
      | inl nothing ↦ rw (given, bytes, nothing) (inl (refl, inr (inr ((==_iff _ _).0 nothing))))
      | inr chunk ↦
          let some_paths : 0 < length input.candidates = ground arith in
          rw (given, bytes, chunk)
            (inr
              (some_paths, ground arith, ground arith, choose_kind-Chooses kind input some_paths))
    ]
  ]
]
