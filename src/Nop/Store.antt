-- ===== src/Nop/Store.antt =====
-- nps_sdk/nop/store.py: InMemoryNopTaskStore. A record keeps its state and its subtasks; the frame,
-- the times and the texts of messages are left out. Each call holds the lock, so it is one step.
use nps_sdk_python.Prelude.{
  ℕ, String, ◌≡◌, refl, subst, inl, inr, Option-cases, Bool-cases, Option, none, some, Result, ok,
  err, eqb, string_eq, if◌then◌else◌, eqb→eq,
}
use nps_sdk_python.Prelude.Dict
use nps_sdk_python.Prelude.Dict.{Dict, get-put, option_map}
use nps_sdk_python.Nop.Models.{TaskState}

pub record SubtaskRecord {ℓ} (V : Type ℓ) : Type ℓ where
  pub subtask_id : String
  pub state : TaskState
  pub result : Option V
  pub error_code : Option String
  pub attempt_count : ℕ

pub record TaskRecord {ℓ} (V : Type ℓ) : Type ℓ where
  pub state : TaskState
  pub subtasks : Dict String (SubtaskRecord V)

abbrev pub Tasks {ℓ} : Type ℓ → Type ℓ
Tasks V = Dict String (TaskRecord V)

-- ValueError
pub data StoreError : Type 0 where
  task_exists : StoreError

-- `if x is not None: sub.x = x`
abbrev pub or_old {κ} : {A : Type κ} → Option A → Option A → Option A
or_old none old = old
or_old (some a) old = some a

module _ {ℓ} {V : Type ℓ} where
  -- save
  abbrev pub save : String → TaskRecord V → Tasks V → Result StoreError (Tasks V)
  save id r tasks = elim (Dict.get tasks id) [
    | none ↦ ok (Dict.put tasks id r)
    | some old ↦ err task_exists
  ]

  -- a change of the record, where there is one
  abbrev pub change : (TaskRecord V → TaskRecord V) → String → Tasks V → Tasks V
  change f id tasks = elim (Dict.get tasks id) [ none ↦ tasks | some r ↦ Dict.put tasks id (f r) ]

  -- update_state
  abbrev pub update_state : String → TaskState → Tasks V → Tasks V
  update_state id state tasks = change (λ r. record r { state = state }) id tasks

  abbrev pub next_subtask :
      String → TaskState → Option V → Option String → ℕ → Option (SubtaskRecord V) → SubtaskRecord V
  next_subtask subtask_id state result error_code attempt none = record {
    subtask_id = subtask_id;
    state = state;
    result = result;
    error_code = error_code;
    attempt_count = attempt;
  }
  next_subtask subtask_id state result error_code attempt (some sub) = record {
    subtask_id = sub.subtask_id;
    state = state;
    result = or_old result sub.result;
    error_code = or_old error_code sub.error_code;
    attempt_count = attempt;
  }

  -- update_subtask
  abbrev pub update_subtask :
      String → String → String → TaskState → Option V → Option String → ℕ → Tasks V → Tasks V
  update_subtask id node_id subtask_id state result error_code attempt tasks =
      change
        (λ r. record r {
          subtasks = Dict.put r.subtasks node_id (
              next_subtask subtask_id state result error_code attempt
                (Dict.get r.subtasks node_id));
        })
        id tasks

  -- A change of one task's record leaves the others.
  pub get-change :
      (f : TaskRecord V → TaskRecord V) (id k : String) (tasks : Tasks V)
      → Dict.get (change f id tasks) k
        ≡ (if eqb id k then option_map f (Dict.get tasks k) else Dict.get tasks k)
  get-change f id k tasks = elim (Option-cases (Dict.get tasks id)) [
    | inr (r, there) ↦
        rw (change, there, get-put tasks id k (f r))
          (elim (Bool-cases (eqb id k)) [
            | inl same ↦
                rw (same, subst (λ j. Dict.get tasks j ≡ some r) (eqb→eq id k same) there) refl
            | inr other ↦ rw other refl
          ])
    | inl absent ↦
        rw (change, absent)
          (elim (Bool-cases (eqb id k)) [
            | inl same ↦
                rw (same, subst (λ j. Dict.get tasks j ≡ none) (eqb→eq id k same) absent) refl
            | inr other ↦ rw other refl
          ])
  ]
