-- ===== src/Postgres/Migrate/Answers.antt =====
-- postgres/migrate.go: when Up, Down and Steps return an error, and the version behind Force.
use txova_go_db.Prelude.{
  ℕ, zero, suc, ◌≡◌, ◌↔◌, refl, sym, ◌∙◌, inl, inr, true, false, Option, none, some, ok, err,
  Bool-cases, arith,
}
use txova_go_db.Prelude.Int.{ℤ, pos, negsuc, pos_part, ◌≤ℤ◌}
use txova_go_db.Text.{Text}
use txova_go_db.Postgres.Migrate.{
  Error, nil_version, is_no_change, is_nil_version, Library, run_error, wrapped_error,
  version_answer, version, force,
}

-- An answer of the library that stands for success: no error, or nothing to do.
abbrev pub IsDone : Option Error → Type 0
IsDone none = Unit
IsDone (some e) = is_no_change e ≡ true

-- Up, Down and Steps return no error exactly then.
pub run_error_iff : (message : Text) (e : Option Error) → (run_error message e ≡ none) ↔ IsDone e
unfolding run_error
run_error_iff message none = (λ h. tt, λ h. refl)
run_error_iff message (some e) = elim (Bool-cases (is_no_change e)) [
  | inl idle ↦ (λ h. idle, λ h. rw idle refl)
  | inr failed ↦ (λ h. let no = rw failed at h in cc, λ h. let no = sym failed ∙ h in cc)
]

module _ (library : Library) where
  open library use {Db}

  -- What golang-migrate documents of Force: it sets the version, or none for -1, and clears the mark
  -- of a failed migration.
  pub record ForceLaws : Type 0 where
    pub force_version :
        (n : ℕ) (s : Db)
        → (library.force (pos n) s).0 ≡ none
        → library.version (library.force (pos n) s).1 ≡ ok (n, false)
    pub force_nil :
        (s : Db)
        → (library.force (negsuc 0) s).0 ≡ none
        → library.version (library.force (negsuc 0) s).1 ≡ err nil_version

  module _ (laws : ForceLaws) where
    open laws use {force_version, force_nil}

    wrapped_error-none :
        (message : Text) (e : Option Error) → wrapped_error message e ≡ none → e ≡ none
    unfolding wrapped_error
    wrapped_error-none message none h = refl
    wrapped_error-none message (some e) h = cc

    version_answer-nil : version_answer (err nil_version) ≡ ok (0, false)
    unfolding version_answer is_nil_version
    version_answer-nil = refl

    -- Behind a Force of a version from -1 on that returns no error, Version returns that version, or
    -- 0 for -1, and a database that is not dirty.
    pub force-version :
        (n : ℤ) (s : Db)
        → negsuc 0 ≤ℤ n
        → (force library n s).0 ≡ none
        → version library (force library n s).1 ≡ ok (pos_part n, false)
    unfolding force version version_answer
    force-version (pos n) s h done = rw (force_version n s (wrapped_error-none _ _ done)) refl
    force-version (negsuc zero) s h done =
        rw (force_nil s (wrapped_error-none _ _ done)) version_answer-nil
    force-version (negsuc (suc n)) s h done = absurd (omega arith)
