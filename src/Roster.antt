-- ===== src/Roster.antt =====
-- src/audit-guard/src/oncall-roster.ts: the on-call rotation. Times are the epoch's milliseconds.
-- A page is the payload handed to delivery; the log file, the webhook and the stored state file are
-- input and output, and the date of the next rotation, in local time, is left out.
pub mod Rotation
mod Tests
use vero_audit_guard.Base.{
  ℕ, zero, suc, ◌+◌, ◌-◌, ◌*◌, ◌/◌, ◌%◌, Bool, true, false, Option, none, some, List, [], ◌∷◌,
  String, ltb, if◌then◌else◌, length, keep, get_elem?,
}

pub data Role : Type 0 where
  primary secondary manager : Role

pub record OnCallContact : Type 0 where
  pub name : String
  pub email : String
  pub slack : Option String
  pub phone : Option String
  pub role : Role

pub data Interval : Type 0 where
  daily weekly : Interval

pub record RotationState : Type 0 where
  pub current_primary_index : ℕ
  pub last_rotated : ℕ

pub record OnCall : Type 0 where
  pub primary_contact : OnCallContact
  pub secondary_contact : OnCallContact
  pub manager_contact : OnCallContact
  pub rotation_id : ℕ

pub record PagePayload : Type 0 where
  pub contact : OnCallContact
  pub alert : String
  pub severity : String
  pub timestamp : ℕ
  pub repository : String
  pub rotation_id : ℕ

abbrev pub has_role : Role → OnCallContact → Bool
has_role primary c = elim c.role [ primary ↦ true | _ ↦ false ]
has_role secondary c = elim c.role [ secondary ↦ true | _ ↦ false ]
has_role manager c = elim c.role [ manager ↦ true | _ ↦ false ]

abbrev pub of_role : Role → List OnCallContact → List OnCallContact
of_role r = keep (has_role r)

abbrev nobody : Role → OnCallContact
nobody r = record { name = "N/A"; email = "N/A"; slack = none; phone = none; role = r }

-- A clock before the last rotation gives a negative count in the source, and no rotation.
pub get_day_of_rotation : RotationState → Interval → ℕ → ℕ
get_day_of_rotation s daily now = (now - s.last_rotated) / 86400000
get_day_of_rotation s weekly now = (now - s.last_rotated) / 86400000 / 7

-- `contacts[index % contacts.length]`, or the stand-in when there is none.
pub pick : Role → List OnCallContact → ℕ → OnCallContact
pick r [] index = nobody r
pick r (c ∷ cs) index = elim (get_elem? (c ∷ cs) (index % length (c ∷ cs))) [
  | none ↦ nobody r
  | some d ↦ d
]

module _ (contacts : List OnCallContact) where
  abbrev primary_count : ℕ
  primary_count = length (of_role primary contacts)

  abbrev advanced : ℕ → ℕ → ℕ
  advanced cycles index = if ltb 0 primary_count then (index + cycles) % primary_count else index

  pub auto_rotate : Interval → RotationState → ℕ → RotationState
  auto_rotate interval s now =
      let cycles = get_day_of_rotation s interval now in
      if ltb 0 cycles
      then record {
        current_primary_index = advanced cycles s.current_primary_index;
        last_rotated = now;
      }
      else s

  pub rotate : RotationState → ℕ → RotationState
  rotate s now = record {
    current_primary_index = advanced 1 s.current_primary_index;
    last_rotated = now;
  }

  pub get_current_on_call : RotationState → OnCall
  get_current_on_call s =
      let i = s.current_primary_index in
      record {
        primary_contact = pick primary (of_role primary contacts) i;
        secondary_contact = pick secondary (of_role secondary contacts) i;
        manager_contact = pick manager (of_role manager contacts) i;
        rotation_id = i;
      }

  pub page_current_on_call : RotationState → String → String → String → ℕ → List PagePayload
  page_current_on_call s alert severity repository now =
      let on_call = get_current_on_call s in
      page on_call on_call.primary_contact
      ∷ page on_call on_call.secondary_contact
      ∷ page on_call on_call.manager_contact
      ∷ []
    where
      page : OnCall → OnCallContact → PagePayload
      page on_call c = record {
        contact = c;
        alert = alert;
        severity = severity;
        timestamp = now;
        repository = repository;
        rotation_id = on_call.rotation_id;
      }

  -- `rotate` called at each of these times.
  pub rotations : RotationState → List ℕ → RotationState
  rotations s [] = s
  rotations s (now ∷ ts) = rotations (rotate s now) ts
