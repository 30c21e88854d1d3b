-- ===== src/Program/Arguments/Shadow.antt =====
-- The value of `-e` or `-l` in an argument of its own.
use lua_node.Base.{
  ℕ, ◌+◌, ◌≤◌, ◌≡◌, ◌≢◌, refl, List, [], ◌∷◌, ◌⊎◌, inl, inr, arith, false, true, none,
}
use lua_node.Base.Int.{pos}
use lua_node.Base.Text.{Text}
use lua_node.Program.Arguments.Agree.{parse_from-option, parse_from-script}
use lua_node.Program.Arguments.{
  operand, other_option, arg_kind, Parsed, parsed, parse_args, and_then, Flags, collect_from,
  collectargs, option_kind, OptionKind, not_option, dash, unknown, dashes, interactive,
  show_version, execute, library, is_empty, process_argv,
}

-- An index that is found is not before the start of the search.
step_ge :
    (i : ℕ) (arg next : Text) (rest : List Text) (f : Flags) (s : ℕ) (k : OptionKind)
    → option_kind arg ≡ k
    → ((g : Flags) → (collect_from (i + 1) (next ∷ rest) g).0 ≡ pos s → (s ≡ 0) ⊎ (i + 1 ≤ s))
    → ((g : Flags) → (collect_from (i + 2) rest g).0 ≡ pos s → (s ≡ 0) ⊎ (i + 2 ≤ s))
    → (collect_from i (arg ∷ next ∷ rest) f).0 ≡ pos s
    → (s ≡ 0) ⊎ (i ≤ s)
unfolding collect_from
step_ge i arg next rest f s not_option e one two c = ground arith
step_ge i arg next rest f s dash e one two c = ground arith
step_ge i arg next rest f s unknown e one two c = ground arith
step_ge i arg next rest f s (dashes tail) e one two c = ground arith
step_ge i arg next rest f s (interactive tail) e one two c =
    ground (arith, one (record f { has_i = true; has_v = true }))
step_ge i arg next rest f s (show_version tail) e one two c =
    ground (arith, one (record f { has_v = true }))
step_ge i arg next rest f s (execute tail) e one two c =
    ground (arith, one (record f { has_e = true }), two (record f { has_e = true }))
step_ge i arg next rest f s (library tail) e one two c = ground (arith, one f, two f)

collect_from-ge :
    (i : ℕ) (args : List Text) (f : Flags) (s : ℕ)
    → (collect_from i args f).0 ≡ pos s
    → (s ≡ 0) ⊎ (i ≤ s)
unfolding collect_from
collect_from-ge i [] f s c = ground arith
collect_from-ge i (arg ∷ []) f s c = ground arith
collect_from-ge i (arg ∷ next ∷ rest) f s c =
    step_ge i arg next rest f s (option_kind arg) refl
      (λ g h. collect_from-ge (i + 1) (next ∷ rest) g s h)
      (λ g h. collect_from-ge (i + 2) rest g s h) c

collect_from-ne :
    (arg value : Text) (rest : List Text) (f : Flags)
    → (option_kind arg ≡ execute []) ⊎ (option_kind arg ≡ library [])
    → (collect_from 1 (arg ∷ value ∷ rest) f).0 ≢ pos 2
unfolding collect_from is_empty
collect_from-ne arg value rest f (inl e) c =
    ground (arith, collect_from-ge 3 rest (record f { has_e = true }) 2)
collect_from-ne arg value rest f (inr e) c = ground (arith, collect_from-ge 3 rest f 2)

-- After `-e` or `-l` with its value in the next argument, which is no option: that value is taken for the
-- script by `ParseArgs`, so that it is the first of `process.argv`, and not by `collectargs`, whose answer is
-- never its index.
value_shadows_script :
    (arg value : Text) (rest : List Text) (f : Flags)
    → (option_kind arg ≡ execute []) ⊎ (option_kind arg ≡ library [])
    → arg_kind arg ≡ other_option
    → arg_kind value ≡ operand
    → (p : Parsed) × (parse_args (arg ∷ value ∷ rest) ≡ parsed p)
      × (process_argv p ≡ value ∷ rest)
      × ((collectargs (arg ∷ value ∷ rest) f).0 ≢ pos 2)
unfolding parse_args and_then collectargs process_argv
value_shadows_script arg value rest f k a b = (
  record { args = arg ∷ value ∷ rest; option_end = 2; debug_mode = false; logger = none },
  rw (parse_from-option 1 arg (value ∷ rest) a, parse_from-script 2 value rest b) refl,
  refl,
  collect_from-ne arg value rest f k,
)
