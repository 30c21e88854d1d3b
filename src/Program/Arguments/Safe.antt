-- ===== src/Program/Arguments/Safe.antt =====
-- What `collectargs` lets pass, `runargs` can run.
use lua_node.Base.{
  ℕ, zero, suc, ◌+◌, ◌-◌, ◌≤◌, ◌≡◌, ◌≢◌, refl, true, Option, none, some, ltb, List, [], ◌∷◌, ◌==◌,
  length, arith, if◌then◌else◌,
}
use lua_node.Base.Int.{ℤ, pos, negsuc}
use lua_node.Base.Text.{Text}
use lua_node.Program.Arguments.{
  Flags, collect_from, collectargs, option_kind, OptionKind, not_option, dash, unknown, dashes,
  interactive, show_version, execute, library, Command, run_string, run_library, Runner, do_command,
  RunResult, asserts, run_from, runargs, load_options,
}

abbrev limit : ℕ → ℕ → List Text → ℕ
limit s i args = if s == 0 then length args else s - i

do_command-safe :
    (works : Runner) (before : List Command) (c : Command) (more : List Command → RunResult)
    → more (c ∷ before) ≢ asserts
    → do_command works before c more ≢ asserts
do_command-safe works before c more h = ground (arith, h)

some_inj : {r q : RunResult} → some r ≡ some q → r ≡ q
some_inj h = cc

module _ (works : Runner) where
  -- An argument with another after it, by its kind.
  step_safe :
      (i : ℕ) (arg next : Text) (rest : List Text) (f : Flags) (before : List Command) (s left : ℕ)
      (k : OptionKind)
      → option_kind arg ≡ k
      → ((g : Flags) (done : List Command)
          → (collect_from (i + 1) (next ∷ rest) g).0 ≡ pos s
          → run_from works left (next ∷ rest) done ≢ asserts)
      → ((g : Flags) (done : List Command)
          → (collect_from (i + 2) rest g).0 ≡ pos s
          → run_from works (left - 1) rest done ≢ asserts)
      → 1 ≤ i
      → (collect_from i (arg ∷ next ∷ rest) f).0 ≡ pos s
      → suc left ≡ limit s i (arg ∷ next ∷ rest)
      → run_from works (suc left) (arg ∷ next ∷ rest) before ≢ asserts
  unfolding collect_from run_from
  step_safe i arg next rest f before s left not_option e one two p c h = ground arith
  step_safe i arg next rest f before s left dash e one two p c h = ground arith
  step_safe i arg next rest f before s left unknown e one two p c h = ground arith
  step_safe i arg next rest f before s left (dashes tail) e one two p c h = ground arith
  step_safe i arg next rest f before s left (interactive tail) e one two p c h =
      ground (arith, one (record f { has_i = true; has_v = true }) before)
  step_safe i arg next rest f before s left (show_version tail) e one two p c h =
      ground (arith, one (record f { has_v = true }) before)
  step_safe i arg next rest f before s left (execute tail) e one two p c h =
      let g = record f { has_e = true } in
      ground (arith, one g (run_string tail ∷ before), two g (run_string next ∷ before))
  step_safe i arg next rest f before s left (library tail) e one two p c h =
      ground (arith, one f (run_library tail ∷ before), two f (run_library next ∷ before))

  safe_from :
      (i : ℕ) (args : List Text) (f : Flags) (before : List Command) (s left : ℕ)
      → 1 ≤ i
      → (collect_from i args f).0 ≡ pos s
      → left ≡ limit s i args
      → run_from works left args before ≢ asserts
  unfolding collect_from run_from
  safe_from i [] f before s left p c e = cc
  safe_from i (arg ∷ []) f before s zero p c e = cc
  safe_from i (arg ∷ []) f before s (suc left) p c e = ground arith
  safe_from i (arg ∷ next ∷ rest) f before s zero p c e = cc
  safe_from i (arg ∷ next ∷ rest) f before s (suc left) p c e =
      step_safe i arg next rest f before s left (option_kind arg) refl
        (λ g done h. safe_from (i + 1) (next ∷ rest) g done s left (omega arith) h (ground arith))
        (λ g done h. safe_from (i + 2) rest g done s (left - 1) (omega arith) h (ground arith)) p c
        e

-- Whatever the command line, none of the assertions of `runargs` fails on what `collectargs` has accepted:
-- each argument before the limit is an option, and an option that takes a value has one.
pub load_options-ne-asserts :
    (works : Runner) (args : List Text) (f : Flags) → load_options works args f ≢ some asserts
unfolding load_options collectargs runargs
load_options-ne-asserts works args f h = accepted (collectargs args f).0 refl h
  where
    accepted :
        (z : ℤ)
        → (collectargs args f).0 ≡ z
        → (elim z as (λ x. Option RunResult) [
          | negsuc n ↦ none
          | pos s ↦ some (runargs works args (if ltb 0 s then s else length args + 1))
        ])
          ≢ some asserts
    accepted (negsuc n) e = λ h. cc
    accepted (pos s) e =
        λ h. safe_from works 1 args f [] s _ (omega arith) e (ground arith) (some_inj h)
