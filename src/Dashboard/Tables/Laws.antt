-- ===== src/Dashboard/Tables/Laws.antt =====
-- What the table of the variables keeps to itself.
use volq_auth.Base.{
  ◌≡◌, refl, ap, ◌∙◌, List, [], ◌∷◌, map, if◌then◌else◌, String, Bool-cases, inl, inr,
}
use volq_auth.Dashboard.Types.{Variable}
use volq_auth.Dashboard.Variables.{Variables, Flags, flag, shown_value, access_text, tier_text}
use volq_auth.Dashboard.Tables.{table_of, Cell, variable_row, variable_table}

-- The variable with another value where its own is not revealed.
abbrev pub disguised : Flags → (Variable → String) → Variable → Variable
disguised revealed other v = if flag revealed v.id then v else record v { var_value = other v }

map-map :
    {A B : Type 0} (f : A → B) (g : A → A)
    → ((x : A) → f (g x) ≡ f x)
    → (xs : List A) → map f (map g xs) ≡ map f xs
map-map f g same [] = refl
map-map f g same (x ∷ xs) = rw (same x, map-map f g same xs) refl

table_of-map :
    {A : Type 0} (headings : List String) (row : A → List Cell) (notice : String) (g : A → A)
    → ((x : A) → row (g x) ≡ row x)
    → (xs : List A) → table_of headings row notice (map g xs) ≡ table_of headings row notice xs
table_of-map headings row notice g same [] = refl
table_of-map headings row notice g same (x ∷ xs) = rw (same x, map-map row g same xs) refl

variable_row-disguised :
    (other : Variable → String) (p : Variables) (v : Variable)
    → variable_row p (disguised p.revealed other v) ≡ variable_row p v
unfolding variable_row shown_value access_text tier_text
variable_row-disguised other p v = elim (Bool-cases (flag p.revealed v.id)) [
  | inl seen ↦ ap (variable_row p) {x = disguised p.revealed other v} {y = v} (rw seen refl)
  | inr hidden ↦
      ap (variable_row p) {x = disguised p.revealed other v} {y = record v { var_value = other v }}
        (rw hidden refl)
      ∙ rw hidden refl
]

-- The table of the variables does not depend on the values that are not revealed: it says the same where each of
-- these is another one.
pub variable_table-disguised :
    (other : Variable → String) (p : Variables)
    → variable_table (record p { variables = map (disguised p.revealed other) p.variables })
      ≡ variable_table p
unfolding variable_table variable_row shown_value
variable_table-disguised other p =
    table_of-map _ (variable_row p) _ (disguised p.revealed other) (variable_row-disguised other p)
      p.variables
