-- ===== src/Prelude/Commands.antt =====
-- Commands on a state `S`: they give a result and the next state, or fault (`none`).
use eaf.Prelude.{Option, none, some}

abbrev pub pure : {S A : Type 0} → A → S → Option (A × S)
pure result state = some (result, state)

infixl 5 ◌>>=◌ ◌>>◌
-- A command, then the one that its result chooses.
abbrev pub ◌>>=◌ :
    {S A B : Type 0} → (S → Option (A × S)) → (A → S → Option (B × S)) → S → Option (B × S)
◌>>=◌ command next before = elim (command before) [
  | none ↦ none
  | some (result, after) ↦ next result after
]

abbrev pub ◌>>◌ :
    {S B : Type 0} → (S → Option (Unit {0} × S)) → (S → Option (B × S)) → S → Option (B × S)
command >> next = command >>= λ done. next
