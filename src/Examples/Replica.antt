-- ===== src/Examples/Replica.antt =====
-- The commands' theorems at concrete inputs.
use dagger_kubernetes.Prelude.{
  true, false, ◌≡◌, ◌≢◌, ◌⊎◌, refl, none, some, List, [], String, str_eq, if◌then◌else◌,
}
use dagger_kubernetes.Maps.{get, has, elem}
use dagger_kubernetes.Domain.{
  User, ApiToken, TraceMeta, ok, err, nil_dereference, conflict, not_found, unknown_command,
  is_zero,
}
use dagger_kubernetes.Fsm.Users.{upsert_user}
use dagger_kubernetes.Fsm.Tokens.{upsert_token}
use dagger_kubernetes.Fsm.Traces.{TraceFailure, is_terminal, ingested, mark_trace_failed}
use dagger_kubernetes.Fsm.Cascade.{delete_user, delete_group, set_members}
use dagger_kubernetes.Fsm.Members.Linked.{in_group, in_user}
use dagger_kubernetes.Fsm.Reads.{read_row, read_indexed}
use dagger_kubernetes.Fsm.Apply.{apply_log, apply_command, nil_response}
use dagger_kubernetes.Fsm.Invariant.{WellFormed}
use dagger_kubernetes.Fsm.Invariant.Commands.{apply_log-WellFormed}
use dagger_kubernetes.Fsm.Snapshot.{snapshot, restore}
use dagger_kubernetes.Fsm.Snapshot.RoundTrip.{restore-snapshot, HasSameRows}
use dagger_kubernetes.Fsm.Behaviour.Atomic.{apply_command_atomic}
use dagger_kubernetes.Fsm.Behaviour.Panics.{apply_command_no_panic}
use dagger_kubernetes.Fsm.Behaviour.Kinds.{unserved_kinds, IsReserved, IsUnknown}
use dagger_kubernetes.Fsm.Behaviour.Finished.{finished_stays_finished}
use dagger_kubernetes.Fsm.Behaviour.Status.{mark_trace_failed_exact}
use dagger_kubernetes.Fsm.Behaviour.Deletes.{
  delete_user_complete, delete_group_complete, IsUserGone, IsGroupGone,
}
use dagger_kubernetes.Fsm.Behaviour.Members.{set_members_exact}
use dagger_kubernetes.Fsm.Behaviour.Tokens.{upsert_token_replaces}
use dagger_kubernetes.Fsm.Behaviour.Users.{upsert_user_reads}
use dagger_kubernetes.Fsm.Tokens.Index.{IsFreshToken}
use dagger_kubernetes.Examples.{
  text_wire, user_wire, trace_wire, wire_codec, lower_case, finished_build, entities, token_log,
  token_log-IsAdmissible, entities-WellFormed, replica, replica-WellFormed, replica_facts,
  replica-HasDistinctKeys, double, renamed, second_key, late,
}

apply_log-WellFormed_example :
    WellFormed lower_case (apply_log lower_case wire_codec token_log entities)
apply_log-WellFormed_example =
    apply_log-WellFormed lower_case wire_codec token_log entities entities-WellFormed
      token_log-IsAdmissible

apply_command_atomic_example :
    (apply_command lower_case wire_codec 1 (user_wire double) replica).0 ≡ replica
apply_command_atomic_example =
    apply_command_atomic lower_case wire_codec replica 1 (user_wire double) conflict
      replica_facts.refused

apply_command_no_panic_example :
    (apply_command lower_case wire_codec 2 (text_wire "u1") replica).1 ≢ nil_dereference
apply_command_no_panic_example =
    apply_command_no_panic lower_case wire_codec replica replica-WellFormed 2 (text_wire "u1")

unserved_kinds_example :
    (IsReserved 21
      → apply_command lower_case wire_codec 21 (text_wire "") replica ≡ (replica, ok nil_response))
    × (IsUnknown 21
        → apply_command lower_case wire_codec 21 (text_wire "") replica
          ≡ (replica, err (unknown_command 21)))
unserved_kinds_example = unserved_kinds lower_case wire_codec replica 21 (text_wire "")

finished_stays_finished_example : is_terminal (ingested late finished_build).status ≡ true
finished_stays_finished_example =
    finished_stays_finished lower_case wire_codec replica "t2" finished_build
      replica_facts.finished_row refl 12 (trace_wire late) _ replica_facts.late_row

abbrev lost : TraceFailure
lost = record { trace_id = "t1"; reason = "client connection lost"; updated_at = 50 }

mark_trace_failed_exact_example :
    (((mark_trace_failed lost replica.traces).1 ≡ true)
      × ((m m' : TraceMeta) × (get replica.traces "t1" ≡ some m)
          × (is_terminal m.status ≡ false)
          × (get (mark_trace_failed lost replica.traces).0 "t1" ≡ some m')
          × (m'.status ≡ "failed")
          × (m'.failure_reason ≡ "client connection lost")
          × ((j : String)
              → "t1" ≢ j
              → get (mark_trace_failed lost replica.traces).0 j ≡ get replica.traces j)))
    ⊎ ((mark_trace_failed lost replica.traces ≡ (replica.traces, false))
        × ((m : TraceMeta) → get replica.traces "t1" ≡ some m → is_terminal m.status ≡ true))
mark_trace_failed_exact_example = mark_trace_failed_exact lost replica.traces

user_there : has replica.users "u1" ≡ true
user_there = rw replica_facts.user_row refl

group_there : has replica.groups "g1" ≡ true
group_there = rw replica_facts.group_row refl

delete_user_complete_example :
    ((delete_user lower_case "u1" replica).1 ≡ ok tt)
    × IsUserGone "u1" replica (delete_user lower_case "u1" replica).0
delete_user_complete_example =
    delete_user_complete lower_case replica replica-WellFormed "u1" refl user_there

delete_group_complete_example :
    ((delete_group lower_case "g1" replica).1 ≡ ok tt)
    × IsGroupGone "g1" replica (delete_group lower_case "g1" replica).0
delete_group_complete_example =
    delete_group_complete lower_case replica replica-WellFormed "g1" refl group_there

abbrev nobody : List String
nobody = []

set_members_exact_example :
    (((set_members "g1" nobody replica).1 ≡ ok tt)
      × ((g u : String)
          → (in_group (set_members "g1" nobody replica).0.member_table g u
              ≡ (if str_eq "g1" g then elem u nobody else in_group replica.member_table g u))
            × (in_user (set_members "g1" nobody replica).0.member_table g u
                ≡ (if str_eq "g1" g then elem u nobody else in_user replica.member_table g u))))
    ⊎ ((set_members "g1" nobody replica ≡ (replica, err not_found))
        × ((has replica.groups "g1" ≡ false)
            ⊎ ((u : String) × (elem u nobody ≡ true) × (has replica.users u ≡ false))))
set_members_exact_example = set_members_exact lower_case replica replica-WellFormed "g1" nobody

second_fresh : IsFreshToken second_key replica.token_table
second_fresh old at = cc (replica_facts.no_second)

upsert_token_replaces_example :
    (get (upsert_token second_key replica.token_table).0.tokens "k2" ≡ some second_key)
    × ((id : String) (x : ApiToken)
        → get (upsert_token second_key replica.token_table).0.tokens id ≡ some x
        → (x.user_id ≡ "u1") ⊎ (x.token_hash ≡ "h2")
        → x ≡ second_key)
upsert_token_replaces_example =
    upsert_token_replaces second_key replica.token_table replica-WellFormed.tokens_ok second_fresh
      replica_facts.replaced

upsert_user_reads_example :
    (x : User) × (read_row (upsert_user lower_case renamed false replica.user_table).0.users "u1"
      ≡ ok x)
    × (read_indexed
          (upsert_user lower_case renamed false replica.user_table).0.users
          (upsert_user lower_case renamed false replica.user_table).0.users_by_name
          "web"
        ≡ ok x)
    × (x ≡ record renamed { created_at = x.created_at; updated_at = x.updated_at })
    × (x.created_at
        ≡ elim (get replica.users "u1") [ none ↦ renamed.created_at | some old ↦ old.created_at ])
    × (x.updated_at ≡ (
        if is_zero renamed.updated_at
        then elim (get replica.users "u1") [ none ↦ renamed.created_at | some old ↦ old.updated_at ]
        else renamed.updated_at))
    × ((j : String)
        → "u1" ≢ j
        → read_row (upsert_user lower_case renamed false replica.user_table).0.users j
          ≡ read_row replica.users j)
upsert_user_reads_example =
    upsert_user_reads lower_case renamed replica.user_table false replica_facts.renamed_ok

restore-snapshot_example :
    ((restore lower_case (some (snapshot replica)) entities).1 ≡ ok tt)
    × HasSameRows replica (restore lower_case (some (snapshot replica)) entities).0
restore-snapshot_example =
    restore-snapshot lower_case replica entities replica-WellFormed replica-HasDistinctKeys
