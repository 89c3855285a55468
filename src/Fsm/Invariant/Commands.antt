-- ===== src/Fsm/Invariant/Commands.antt =====
-- applyCommand, Apply and the replay of a log, and the invariant of the replica.
use dagger_kubernetes.Prelude.{ℕ, Option, none, some, List, [], ◌∷◌, String, arith}
use dagger_kubernetes.Maps.{IsDistinct, empty, get-empty}
use dagger_kubernetes.Maps.Index.{IsIndexed-empty}
use dagger_kubernetes.Domain.{User, Group, Project, ApiToken, TraceMeta, err, decode_error}
use dagger_kubernetes.Fsm.State.{FsmState, StringSet, new_state}
use dagger_kubernetes.Fsm.Users.Index.{oauth_index_key}
use dagger_kubernetes.Fsm.Groups.Index.{group_key}
use dagger_kubernetes.Fsm.Projects.Index.{project_key}
use dagger_kubernetes.Fsm.Tokens.Index.{hash_key, owner_key}
use dagger_kubernetes.Fsm.Members.{set_at, has_edge}
use dagger_kubernetes.Fsm.Members.Linked.{IsLinked-empty}
use dagger_kubernetes.Fsm.Command.{kind_of, Codec}
use dagger_kubernetes.Fsm.Apply.{Step, first_handled_cases, apply_command, apply, apply_log}
use dagger_kubernetes.Fsm.Invariant.{WellFormed}
use dagger_kubernetes.Fsm.Invariant.Handlers.{
  IsAdmissible, entity-Keeps, trace-Keeps, session-Keeps,
}

module _ (lower : String → String) (codec : Codec) where
  open codec use {Raw}

  -- From a well-formed replica, a command of any kind, accepted or refused, leaves one.
  pub apply_command-WellFormed :
      (n : ℕ) (raw : Raw) (s : FsmState)
      → WellFormed lower s
      → IsAdmissible lower codec (kind_of n) raw s
      → WellFormed lower (apply_command lower codec n raw s).0
  unfolding apply_command
  apply_command-WellFormed n raw s w a =
      first_handled_cases (λ step. WellFormed lower step.0) _ _ _ _
        (entity-Keeps lower codec s w (kind_of n) raw a)
        (trace-Keeps lower codec s w (kind_of n) raw)
        (session-Keeps lower codec s w (kind_of n) raw) w

  -- an entry that does not decode is refused, and admissible
  abbrev pub IsAdmissibleEntry : Raw → FsmState → Type 0
  IsAdmissibleEntry raw s = elim (codec.command raw) [
    | none ↦ Unit
    | some (n, data_raw) ↦ IsAdmissible lower codec (kind_of n) data_raw s
  ]

  -- every entry of the log is admissible where it is applied
  abbrev pub IsAdmissibleLog : List Raw → FsmState → Type 0
  IsAdmissibleLog [] s = Unit
  IsAdmissibleLog (raw ∷ log) s =
      IsAdmissibleEntry raw s × IsAdmissibleLog log (apply lower codec raw s).0

  apply-WellFormed :
      (raw : Raw) (s : FsmState)
      → WellFormed lower s
      → IsAdmissibleEntry raw s
      → WellFormed lower (apply lower codec raw s).0
  unfolding apply
  apply-WellFormed raw s w a = pick (codec.command raw) a
    where
      pick :
          (o : Option (ℕ × Raw))
          → (elim o as (λ _. Type 0) [
            | none ↦ Unit
            | some (n, data_raw) ↦ IsAdmissible lower codec (kind_of n) data_raw s
          ])
          → WellFormed lower
              (elim o as (λ _. Step) [
                | none ↦ (s, err (decode_error "raft command"))
                | some (n, data_raw) ↦ apply_command lower codec n data_raw s
              ]).0
      pick none b = w
      pick (some (n, data_raw)) b = apply_command-WellFormed n data_raw s w b

  -- From a well-formed replica, a log whose entries are all admissible where they are applied
  -- leaves a well-formed one.
  pub apply_log-WellFormed :
      (log : List Raw) (s : FsmState)
      → WellFormed lower s
      → IsAdmissibleLog log s
      → WellFormed lower (apply_log lower codec log s)
  unfolding apply_log
  apply_log-WellFormed [] s w a = w
  apply_log-WellFormed (raw ∷ log) s w a =
      apply_log-WellFormed log (apply lower codec raw s).0 (apply-WellFormed raw s w a.0) a.1

empty-IsDistinct : IsDistinct {V = TraceMeta} empty
unfolding empty
empty-IsDistinct = tt

pub new_state-WellFormed : (lower : String → String) → WellFormed lower new_state
unfolding has_edge set_at
new_state-WellFormed lower = record {
  users_ok = record {
    keyed = λ id u e. cc (get-empty {V = User} id);
    named = λ id u e. cc (get-empty {V = User} id);
    by_name = IsIndexed-empty (λ u. some (lower u.username));
    by_oauth = IsIndexed-empty oauth_index_key;
  };
  groups_ok = record {
    keyed = λ id u e. cc (get-empty {V = Group} id);
    by_name = IsIndexed-empty (group_key lower);
  };
  projects_ok = record {
    keyed = λ id u e. cc (get-empty {V = Project} id);
    by_name = IsIndexed-empty (project_key lower);
  };
  tokens_ok = record {
    keyed = λ id u e. cc (get-empty {V = ApiToken} id);
    by_hash = IsIndexed-empty hash_key;
    by_user = IsIndexed-empty owner_key;
  };
  members_linked = IsLinked-empty;
  member_user = λ g u e. ground (arith, get-empty {V = StringSet} g, get-empty {V = Unit {0}} u);
  member_group = λ g u e. ground (arith, get-empty {V = StringSet} g, get-empty {V = Unit {0}} u);
  traces_keyed = record {
    at_id = λ id m e. cc (get-empty {V = TraceMeta} id);
    distinct = empty-IsDistinct;
  };
}
