-- ===== src/Reporter/Codes/Laws.antt =====
-- `_error_code` returns a code that the protocol allows for the operation.
use tributo_knova.Prelude.{
  String, Bool, true, false, ◌&&◌, ◌≡◌, refl, ◌==◌, elem, arith, if◌then◌else◌,
}
use tributo_knova.Reporter.Codes.{
  invalid_codes, allowed_codes, generic_failures, phase_code, error_code,
}

-- A test holds of a choice if it holds of both of its outcomes.
choice {ℓ} :
    {A : Type ℓ} (p : A → Bool) (test : Bool) (x y : A)
    → (test ≡ true → p x ≡ true)
    → (test ≡ false → p y ≡ true)
    → p (if test then x else y) ≡ true
choice p true x y hx hy = hx refl
choice p false x y hx hy = hy refl

allowed : Bool → String → Bool
allowed training code = elem code (allowed_codes training)

phase_code-allowed :
    (training : Bool) (phase : String) → allowed training (phase_code training phase) ≡ true
unfolding allowed
phase_code-allowed true phase =
    choice (allowed true) (phase == "LOADING_DATA") _ _ (λ _. refl)
      λ _.
        choice (allowed true) (phase == "EVALUATING") _ _ (λ _. refl)
          λ _. choice (allowed true) (phase == "EXPORTING") _ _ (λ _. refl) λ _. refl
phase_code-allowed false phase =
    choice (allowed false) (phase == "LOAD_MODEL") _ _ (λ _. refl)
      λ _.
        choice (allowed false) (phase == "READ_INPUT") _ _ (λ _. refl)
          λ _. choice (allowed false) (phase == "WRITE_RESULT") _ _ (λ _. refl) λ _. refl

-- Whatever code and phase it is given, the error code that an event carries is one that the
-- protocol allows for the operation: a training code for training, an inference code for inference.
pub error_code-elem :
    (training : Bool) (code phase : String)
    → elem (error_code training code phase) (allowed_codes training) ≡ true
unfolding error_code allowed
error_code-elem true code phase =
    choice (allowed true) (elem code invalid_codes) _ _ (λ _. refl)
      λ _.
        choice (allowed true) (code == "EXECUTION_TIMEOUT" && true) _ _ (λ _. refl)
          λ _.
            choice (allowed true) (elem code (allowed_codes true)) _ _ (λ h. h)
              λ _.
                choice (allowed true) (elem code generic_failures) _ _
                  (λ _. phase_code-allowed true phase) λ _. refl
error_code-elem false code phase =
    choice (allowed false) (elem code invalid_codes) _ _ (λ _. refl)
      λ _.
        choice (allowed false) (code == "EXECUTION_TIMEOUT" && false) _ _ (λ h. ground arith)
          λ _.
            choice (allowed false) (elem code (allowed_codes false)) _ _ (λ h. h)
              λ _.
                choice (allowed false) (elem code generic_failures) _ _
                  (λ _. phase_code-allowed false phase) λ _. refl
