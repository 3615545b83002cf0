-- ===== src/Roster/Tests.antt =====
-- Runs of the on-call rotation, and instances of its theorems.
use vero_audit_guard.Base.{ℕ, ◌<◌, ◌≡◌, refl, List, [], ◌∷◌, String, length, none}
use vero_audit_guard.Roster.Rotation.{rotations-reach}
use vero_audit_guard.Roster.{
  Role, primary, secondary, OnCallContact, daily, RotationState, pick, get_day_of_rotation,
  auto_rotate, rotate, get_current_on_call, page_current_on_call, rotations,
}

abbrev member : String → Role → OnCallContact
member name r = record { name = name; email = name; slack = none; phone = none; role = r }

abbrev team : List OnCallContact
team =
    member "a" primary
    ∷ member "s" secondary
    ∷ member "b" primary
    ∷ member "t" secondary
    ∷ member "u" secondary
    ∷ []

abbrev begun : RotationState
begun = record { current_primary_index = 1; last_rotated = 1000 }

abbrev two_days_on : ℕ
two_days_on = 172801000

roster : Unit {0}
unfolding get_day_of_rotation auto_rotate rotate get_current_on_call page_current_on_call rotations
    pick
roster = tt

roster_tests :
    ((get_current_on_call team begun).primary_contact.name ≡ "b")
    × ((get_current_on_call team (rotate team begun 5)).primary_contact.name ≡ "a")
    × ((get_current_on_call team begun).manager_contact.name ≡ "N/A")
    × ((auto_rotate team daily begun two_days_on).current_primary_index ≡ 1)
    × (length (page_current_on_call team begun "x" "HIGH" "org/repo" 7) ≡ 3)
unfolding roster
roster_tests = (refl, refl, refl, refl, refl)

rotations-reach_example :
    (k : ℕ) × (k < 2)
    × ((ts : List ℕ)
        → length ts ≡ k
        → (get_current_on_call team (rotations team begun ts)).primary_contact ≡ member "a" primary)
rotations-reach_example = rotations-reach team begun 0 (member "a" primary) refl
