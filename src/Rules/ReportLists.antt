-- ===== src/Rules/ReportLists.antt =====
-- Answers of rules, with exactly the reports that a predicate allows.
use zslay.Prelude.{List, Memᴰ, Option, [], refl, some, subst, sym, ◌↔◌, ◌∙◌, ◌∷◌, ◌≡◌}
use mathlib.Core.List.Memᴰ
use zslay.Ast.{Report}

-- an answer, with exactly these reports
abbrev pub Reports : Option (List Report) → (Report → Type 0) → Type 0
Reports o P = (reports : List Report) × (o ≡ some reports) × ((r : Report) → Memᴰ r reports ↔ P r)

pub Reports-nothing : (P : Report → Type 0) → ((r : Report) → P r → ⊥) → Reports (some []) P
Reports-nothing P never = ([], refl, λ r. (λ m. absurd (Memᴰ.not-nil m), λ p. absurd (never r p)))

pub Reports-one :
    (r : Report) (P : Report → Type 0)
    → P r
    → ((q : Report) → P q → q ≡ r)
    → Reports (some (r ∷ [])) P
Reports-one r P p only =
    (r ∷ [], refl, λ q. (λ m. subst P (sym (Memᴰ.eq_of_singleton m)) p, λ h. Memᴰ.head (only q h)))

pub Reports-iff :
    {o : Option (List Report)} {P Q : Report → Type 0}
    → ((r : Report) → P r → Q r)
    → ((r : Report) → Q r → P r)
    → Reports o P
    → Reports o Q
Reports-iff f g (reports, e, i) = (reports, e, λ r. (λ m. f r ((i r).0 m), λ q. (i r).1 (g r q)))

pub Reports-eq :
    {o q : Option (List Report)} {P : Report → Type 0} → o ≡ q → Reports q P → Reports o P
Reports-eq e (reports, p, i) = (reports, e ∙ p, i)
