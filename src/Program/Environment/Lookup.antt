-- ===== src/Program/Environment/Lookup.antt =====
-- What Lua finds in the environment.
use lua_node.Base.{
  ◌≡◌, ◌≢◌, ◌∙◌, refl, ap, Bool, true, false, Option, none, some, List, [], ◌∷◌, ◌++◌, map, All,
  arith, if◌then◌else◌,
}
use lua_node.Base.Text.{Text, same_text, same_text_iff}
use lua_node.Program.Environment.{split_entry, set_field, get_field, fill_env, process_env}

abbrev pub IsName : Text → Type 0
IsName name = All (λ c. c ≢ b'=') name

split_entry-append :
    (name value : Text) → IsName name → split_entry (name ++ b'=' ∷ value) ≡ (name, value)
unfolding split_entry
split_entry-append [] value h = refl
split_entry-append (c ∷ cs) value (h, hs) = rw (split_entry-append cs value hs) (ground arith)

get_field-set_field :
    (k j v : Text) (t : List (Text × Text))
    → get_field j (set_field k v t) ≡ (if same_text k j then some v else get_field j t)
unfolding get_field set_field
get_field-set_field k j v [] = refl
get_field-set_field k j v ((i, w) ∷ t) =
    ground
      (arith, same_text_iff k j, same_text_iff i k, same_text_iff i j, get_field-set_field k j v t)

-- The text of an entry, as the system gives it.
abbrev pub entry_of : Text × Text → Text
entry_of (name, value) = name ++ b'=' ∷ value

abbrev pub HasName : Text × Text → Type 0
HasName (name, value) = IsName name

-- The value of the last entry with a name.
abbrev pub last_value : Text → List (Text × Text) → Option Text
last_value k [] = none
last_value k ((name, value) ∷ rest) = elim (last_value k rest) [
  | none ↦ if same_text name k then some value else none
  | some v ↦ some v
]

fill_env-cons :
    (entry name value : Text) (rest : List Text) (t : List (Text × Text))
    → split_entry entry ≡ (name, value)
    → fill_env (entry ∷ rest) t ≡ fill_env rest (set_field name value t)
unfolding fill_env
fill_env-cons entry name value rest t e = rw e refl

later_wins :
    (o : Option Text) (b : Bool) (value : Text) (below : Option Text)
    → (elim o as (λ x. Option Text) [ none ↦ if b then some value else below | some v ↦ some v ])
      ≡ (elim (elim o as (λ x. Option Text) [
        | none ↦ if b then some value else none
        | some v ↦ some v
      ])
          as (λ x. Option Text) [ none ↦ below | some v ↦ some v ])
later_wins none true value below = refl
later_wins none false value below = refl
later_wins (some v) b value below = refl

-- What a table that was filled holds: the entries over what it held before.
get_field-fill_env :
    (k : Text) (entries : List (Text × Text)) (t : List (Text × Text))
    → All HasName entries
    → get_field k (fill_env (map entry_of entries) t)
      ≡ (elim (last_value k entries) as (λ x. Option Text) [
        | none ↦ get_field k t
        | some v ↦ some v
      ])
unfolding fill_env
get_field-fill_env k [] t h = refl
get_field-fill_env k ((name, value) ∷ rest) t (h, hs) =
    ap (get_field k) (
      fill_env-cons (name ++ b'=' ∷ value) name value (map entry_of rest) t
        (split_entry-append name value h))
    ∙ get_field-fill_env k rest (set_field name value t) hs
    ∙ ap
        (λ below. elim (last_value k rest) as (λ x. Option Text) [ none ↦ below | some v ↦ some v ])
        (get_field-set_field name k value t)
    ∙ later_wins (last_value k rest) (same_text name k) value (get_field k t)

-- For an environment of entries `NAME=value`, with any bytes in the values, `=` too: what Lua finds under a
-- name in `process.env` is the value of the last entry with that name, and nothing where there is none.
pub get_field-process_env :
    (k : Text) (entries : List (Text × Text))
    → All HasName entries
    → get_field k (process_env (map entry_of entries)) ≡ last_value k entries
unfolding process_env get_field
get_field-process_env k entries h = get_field-fill_env k entries [] h ∙ ground arith
