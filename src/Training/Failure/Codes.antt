-- ===== src/Training/Failure/Codes.antt =====
-- The codes and the phases under which a training fails.
use tributo_knova.Prelude.{
  ◌⊎◌, inl, inr, suc, String, Bool, true, false, ◌||◌, List, [], ◌∷◌, Option, none, some, ◌≡◌, refl,
  elem, distinct, length, ◌==◌, if_either, if◌then◌else◌,
}
use tributo_knova.Reporter.Codes.{training_codes}
use tributo_knova.Training.Failure.{
  Thrown, Heap, thrown_at, phase_of_training, is_export, is_ingestion, any_of, any_data_error,
  phase_failure, failure_in, connection_of, current, classify, Fault, execution_fault, data_fault,
  value_fault, other_fault, Leaving, unchanged, execution, stuck, control_codes, known_or, leave,
}
use tributo_knova.Training.Failure.Chain.{names, causes-total}

-- the phases that the classification has other names for
abbrev pub renamed_phases : List String
renamed_phases = "PREPARING" ∷ "EXECUTING" ∷ "MATERIALIZING" ∷ "PUBLISHING" ∷ []

-- A phase that a failure may have, where the reporter is in the phase `now`: that one, if it is not
-- renamed, or one of three.
abbrev pub IsPhase : String → String → Type 0
IsPhase now phase =
    (elem phase renamed_phases ≡ false)
    × ((phase ≡ now) ⊎ (elem phase ("LOADING_DATA" ∷ "TRAINING" ∷ "EVALUATING" ∷ []) ≡ true))

-- The code is one that the reporter sends.
abbrev pub IsReported : String → String × String → Type 0
IsReported now (code, phase) = (elem code training_codes ≡ true) × IsPhase now phase

IsPhase-phase_of_training : (now : String) → IsPhase now (phase_of_training now)
IsPhase-phase_of_training now =
    let C : String → Type 0 = IsPhase now in
    if_either C (now == "PREPARING") _ _ (λ _. (refl, inr refl))
      λ a.
        if_either C (now == "EXECUTING") _ _ (λ _. (refl, inr refl))
          λ b.
            if_either C (now == "MATERIALIZING") _ _ (λ _. (refl, inr refl))
              λ c.
                if_either C (now == "PUBLISHING") _ _ (λ _. (refl, inr refl))
                  λ d. (rw (a, b, c, d) refl, inl refl)

phase_failure-IsReported :
    (connection : Bool) (now phase : String)
    → IsPhase now phase
    → IsReported now (phase_failure connection phase)
phase_failure-IsReported connection now phase h =
    if_either (IsReported now) (elem phase ("LOADING_DATA" ∷ "DATA_SPLITTING" ∷ [])) _ _
      (λ _. (go connection, h))
      λ _.
        if_either (IsReported now) (phase == "FEATURE_ENGINEERING") _ _ (λ _. (refl, h))
          λ _.
            if_either (IsReported now) (phase == "EVALUATING") _ _ (λ _. (refl, h)) λ _. (refl, h)
  where
    go :
        (b : Bool)
        → elem (if b then "DATA_SOURCE_UNREACHABLE" else "DATA_QUERY_FAILED") training_codes ≡ true
    go true = refl
    go false = refl

failure_in-IsReported :
    (chain : List Thrown) (connection : Bool) (now : String) (publishing : Bool)
    → IsReported now (failure_in chain connection (phase_of_training now) publishing)
unfolding failure_in
failure_in-IsReported chain connection now publishing =
    if_either (IsReported now) (publishing || any_of is_export chain) _ _
      (λ _. (refl, (refl, inr refl)))
      λ _.
        if_either (IsReported now) (any_data_error chain || any_of is_ingestion chain) _ _
          (λ _. (refl, (refl, inr refl)))
          λ _.
            phase_failure-IsReported connection now (phase_of_training now)
              (IsPhase-phase_of_training now)

-- A control error leaves as it is; anything else as an execution error that can be reported.
abbrev pub IsLeaving : String → Leaving → Type 0
IsLeaving now (unchanged code) = elem code control_codes ≡ true
IsLeaving now (execution code phase) = IsReported now (code, phase)
IsLeaving now stuck = ⊥

leave-IsLeaving :
    (now : String) (otherwise : String × String) (fault : Fault)
    → IsReported now otherwise
    → IsLeaving now (leave (some otherwise) fault)
unfolding leave
leave-IsLeaving now otherwise execution_fault r = r
leave-IsLeaving now otherwise data_fault r = (refl, (refl, inr refl))
leave-IsLeaving now otherwise (value_fault text) r =
    let C : Option String → Type 0 = λ o. IsLeaving now (known_or o (some otherwise)) in
    if_either C (text == "training dataset is empty") _ _ (λ _. (refl, (refl, inr refl)))
      λ _.
        if_either C (text == "Couldn't create non-empty splits with the given proportions.") _ _
          (λ _. (refl, (refl, inr refl))) λ _. r
leave-IsLeaving now otherwise (other_fault none) r = r
leave-IsLeaving now otherwise (other_fault (some code)) r =
    if_either (IsLeaving now) (elem code control_codes) _ _ (λ c. c) (λ _. r)

-- Whatever is raised while a training runs, with whatever causes, if different exceptions have
-- different identities: on one round more than there are exceptions, `execute_training` raises a
-- control error as it is, or an execution error whose code is one that the reporter sends for a
-- training, and whose phase is the reporter's current one (LOADING_DATA, if it has none),
-- LOADING_DATA, TRAINING or EVALUATING, but never PREPARING, EXECUTING, MATERIALIZING or
-- PUBLISHING.
pub leave-classify :
    (heap : Heap) (error : String) (phase : Option String) (publishing : Bool) (fault : Fault)
    → distinct (names heap) ≡ true
    → IsLeaving
        (current phase)
        (leave (classify (suc (length (names heap))) heap error phase publishing) fault)
unfolding classify
leave-classify heap error phase publishing fault unique =
    let (chain, ends) = causes-total heap unique (some error) in
    rw (classify, ends)
      (leave-IsLeaving (current phase)
        (failure_in chain (connection_of (thrown_at heap error)) (phase_of_training (current phase))
          publishing)
        fault
        (failure_in-IsReported chain (connection_of (thrown_at heap error)) (current phase)
          publishing))
