-- ===== src/Program/Arguments/Agree.antt =====
-- `ParseArgs` and `collectargs` look for the script each in its own way.
use lua_node.Base.{
  ℕ, zero, suc, ◌+◌, ◌-◌, ◌≤◌, ◌≡◌, refl, true, false, none, List, [], ◌∷◌, ◌==◌, length, arith,
  ◌∙◌, ◌⊎◌, inl, inr, Bool-cases, ◌<◌, ap, if◌then◌else◌, drop,
}
use lua_node.Base.Int.{pos}
use lua_node.Base.Text.{Text}
use lua_node.Program.Arguments.{
  operand, other_option, arg_kind, Parsed, parsed, parse_from, parse_args, stop_at, keep, and_then,
  Flags, collect_from, collectargs, option_kind, not_option, interactive, execute, library,
  is_empty, process_argv,
}

-- An option that is one argument: `-i`, or `-e` or `-l` with its value at once.
pub data IsWhole (arg : Text) : Type 0 where
  i_option : option_kind arg ≡ interactive [] → IsWhole arg
  e_option : (c : ℕ) (cs : Text) → option_kind arg ≡ execute (c ∷ cs) → IsWhole arg
  l_option : (c : ℕ) (cs : Text) → option_kind arg ≡ library (c ∷ cs) → IsWhole arg

-- Such options, and then nothing, or an argument that is no option and the rest.
pub data IsSimple : List Text → Type 0 where
  no_script : IsSimple []
  script :
      {arg : Text} {rest : List Text}
      → option_kind arg ≡ not_option
      → arg_kind arg ≡ operand
      → IsSimple (arg ∷ rest)
  option :
      {arg : Text} {rest : List Text}
      → IsWhole arg
      → arg_kind arg ≡ other_option
      → IsSimple rest
      → IsSimple (arg ∷ rest)

abbrev result : ℕ → List Text → Parsed
result e args = record { args = args; option_end = e; debug_mode = false; logger = none }

-- What the two make of the arguments from the index `i` on, when the options among them are `n`.
record Agrees (i : ℕ) (args : List Text) (f : Flags) (n : ℕ) : Type 0 where
  within : n ≤ length args
  parsed_there : parse_from i args ≡ parsed (result (i + n) args)
  collected : (collect_from i args f).0 ≡ pos (if n == length args then 0 else i + n)

flags_after : {arg : Text} → IsWhole arg → Flags → Flags
flags_after (i_option e) f = record f { has_i = true; has_v = true }
flags_after (e_option c cs e) f = record f { has_e = true }
flags_after (l_option c cs e) f = f

collect_from-whole :
    (i : ℕ) (arg : Text) (rest : List Text) (f : Flags) (w : IsWhole arg)
    → collect_from i (arg ∷ rest) f ≡ collect_from (i + 1) rest (flags_after w f)
unfolding collect_from is_empty flags_after
collect_from-whole i arg [] f (i_option e) = ground arith
collect_from-whole i arg [] f (e_option c cs e) = ground arith
collect_from-whole i arg [] f (l_option c cs e) = ground arith
collect_from-whole i arg (next ∷ rest) f (i_option e) = ground arith
collect_from-whole i arg (next ∷ rest) f (e_option c cs e) = ground arith
collect_from-whole i arg (next ∷ rest) f (l_option c cs e) = ground arith

pub parse_from-option :
    (i : ℕ) (arg : Text) (rest : List Text)
    → arg_kind arg ≡ other_option
    → parse_from i (arg ∷ rest) ≡ and_then (parse_from (i + 1) rest) (keep arg)
unfolding parse_from
parse_from-option i arg [] e = rw e refl
parse_from-option i arg (next ∷ rest) e = rw e refl

pub parse_from-script :
    (i : ℕ) (arg : Text) (rest : List Text)
    → arg_kind arg ≡ operand
    → parse_from i (arg ∷ rest) ≡ stop_at i (arg ∷ rest)
unfolding parse_from
parse_from-script i arg [] e = rw e refl
parse_from-script i arg (next ∷ rest) e = rw e refl

collect_from-script :
    (i : ℕ) (arg : Text) (rest : List Text) (f : Flags)
    → option_kind arg ≡ not_option
    → (collect_from i (arg ∷ rest) f).0 ≡ pos i
unfolding collect_from
collect_from-script i arg [] f e = ground arith
collect_from-script i arg (next ∷ rest) f e = ground arith

agree_from : (args : List Text) → IsSimple args → (i : ℕ) (f : Flags) → (n : ℕ) × Agrees i args f n
unfolding and_then parse_from collect_from
agree_from [] no_script i f =
    (0, record { within = omega arith; parsed_there = ground arith; collected = ground arith })
agree_from (arg ∷ rest) (script e a) i f = (
  0,
  record {
    within = omega arith;
    parsed_there = parse_from-script i arg rest a ∙ (ground arith);
    collected = collect_from-script i arg rest f e ∙ (ground arith);
  },
)
agree_from (arg ∷ rest) (option w a more) i f =
    let (n, g) = agree_from rest more (i + 1) (flags_after w f) in
    (
      suc n,
      record {
        within = omega (arith, g.within);
        parsed_there = rw (parse_from-option i arg rest a, g.parsed_there) (ground arith);
        collected = rw (collect_from-whole i arg rest f w, g.collected) (ground arith);
      },
    )

drop_all : (n : ℕ) (xs : List Text) → length xs ≤ n → drop n xs ≡ []
drop_all zero [] h = refl
drop_all zero (x ∷ xs) h = absurd (omega (arith, h))
drop_all (suc n) [] h = refl
drop_all (suc n) (x ∷ xs) h = drop_all n xs (omega (arith, h))

-- Where the options come first, each of them `-i`, or `-e` or `-l` with its value in the same argument, and
-- neither reading takes the script for an option: the arguments stay as they are; without a script
-- `collectargs` answers 0 and `process.argv` has nothing from the index 0 on, and else `collectargs` answers
-- the index at which `process.argv` begins, which is that of an argument.
pub parse_args-collectargs :
    (args : List Text) (f : Flags)
    → IsSimple args
    → (p : Parsed) × (parse_args args ≡ parsed p)
      × (p.args ≡ args)
      × (((collectargs args f).0 ≡ pos 0) × (process_argv p ≡ [])
          ⊎ ((collectargs args f).0 ≡ pos p.option_end) × (p.option_end < length args + 1))
unfolding parse_args collectargs process_argv
parse_args-collectargs args f simple =
    let (n, g) = agree_from args simple 1 f in
    (
      result (1 + n) args,
      g.parsed_there,
      refl,
      elim (Bool-cases (n == length args)) [
        | inl e ↦ inl (
          g.collected ∙ ap (λ b. pos (if b then 0 else 1 + n)) e,
          drop_all (1 + n - 1) args (ground arith),
        )
        | inr e ↦
            inr (g.collected ∙ ap (λ b. pos (if b then 0 else 1 + n)) e, ground (arith, g.within))
      ],
    )
