-- ===== src/Obsidian/Coverage/Honest.antt =====
-- What a coverage of internal/tools/obsidian/coverage.go tells its reader.
use personal_mcp_gateway.Base.{
  Bytes, Bool, true, false, ◌||◌, not, is_empty, Option, none, some, ◌≡◌, ◌≢◌, ◌↔◌, ◌⊎◌, refl,
  subst, arith, bytes_eq, if_lem, or_parts,
}
use mathlib.Core.Option.{some-injective}
use personal_mcp_gateway.Obsidian.Coverage.{
  best_effort, stop_scope, continuation_complete, continuation_cursor, continuation_restart,
  CoverageWork, Coverage, new_complete_coverage, valid_cursor_stop, new_cursor_coverage_with_scope,
  valid_restart_stop, new_restart_coverage,
}

-- What the documentation of the fields says: only a complete result needs no other call, only a cursor
-- continues it, and only what is begun again is a best effort.
pub record IsHonest (c : Coverage) : Type 0 where
  pub complete_iff : (c.result_complete ≡ true) ↔ (c.continuation ≡ continuation_complete)
  pub cursor_iff : (is_empty c.next_cursor ≡ false) ↔ (c.continuation ≡ continuation_cursor)
  pub restart_iff : (c.consistency ≡ best_effort) ↔ (c.continuation ≡ continuation_restart)
  pub complete_scope : c.result_complete ≡ true → c.scope_complete ≡ true
  pub scope_iff : (c.stopped_by ≡ stop_scope) ↔ (c.result_complete ≡ true)
  pub stable_scope : c.consistency ≡ best_effort → c.scope_complete ≡ false

complete-IsHonest : (work : CoverageWork) → IsHonest (new_complete_coverage work)
complete-IsHonest work = record {
  complete_iff = ground arith;
  cursor_iff = ground arith;
  restart_iff = ground arith;
  complete_scope = ground arith;
  scope_iff = ground arith;
  stable_scope = ground arith;
}

scope_no_cursor_stop : valid_cursor_stop stop_scope ≡ false
unfolding valid_cursor_stop bytes_eq
scope_no_cursor_stop = refl

scope_no_restart_stop : valid_restart_stop stop_scope ≡ false
unfolding valid_restart_stop bytes_eq
scope_no_restart_stop = refl

cursor_stop-ne-scope : (s : Bytes) → valid_cursor_stop s ≡ true → s ≢ stop_scope
cursor_stop-ne-scope s h e = cc (scope_no_cursor_stop, h, e)

restart_stop-ne-scope : (s : Bytes) → valid_restart_stop s ≡ true → s ≢ stop_scope
restart_stop-ne-scope s h e = cc (scope_no_restart_stop, h, e)

cursor-IsHonest :
    (work : CoverageWork) (stopped_by cursor : Bytes) (scope : Bool) (c : Coverage)
    → new_cursor_coverage_with_scope work stopped_by cursor scope ≡ some c
    → IsHonest c
cursor-IsHonest work stopped_by cursor scope c h =
    if_lem (λ (o : Option Coverage). o ≡ some c → IsHonest c)
      (is_empty cursor || not (valid_cursor_stop stopped_by)) (λ y e. ground arith)
      (λ n e.
        let (full, valid) = or_parts (is_empty cursor) (not (valid_cursor_stop stopped_by)) n in
        let other = cursor_stop-ne-scope stopped_by (ground arith) in
        subst IsHonest (some-injective _ _ e) (record {
          complete_iff = ground arith;
          cursor_iff = ground arith;
          restart_iff = ground arith;
          complete_scope = ground arith;
          scope_iff = ground arith;
          stable_scope = ground arith;
        }))
      h

restart-IsHonest :
    (work : CoverageWork) (stopped_by : Bytes) (c : Coverage)
    → new_restart_coverage work stopped_by ≡ some c
    → IsHonest c
restart-IsHonest work stopped_by c h =
    if_lem (λ (o : Option Coverage). o ≡ some c → IsHonest c) (valid_restart_stop stopped_by)
      (λ y e.
        let other = restart_stop-ne-scope stopped_by y in
        subst IsHonest (some-injective _ _ e) (record {
          complete_iff = ground arith;
          cursor_iff = ground arith;
          restart_iff = ground arith;
          complete_scope = ground arith;
          scope_iff = ground arith;
          stable_scope = ground arith;
        }))
      (λ n e. ground arith) h

-- Whatever work a page has cost, its coverage is honest, whether it is complete, has a cursor or must be
-- restarted: the result is complete exactly where the continuation is "complete" and where the stop is
-- "scope", and then the scope is complete too; there is a cursor to go on with exactly where the
-- continuation is "cursor"; and it is a best effort exactly where the continuation is "restart", and then
-- the scope is not complete. A coverage with a cursor is refused exactly if the cursor is empty or the stop
-- is none that a cursor goes with.
pub new_coverage-IsHonest :
    (work : CoverageWork) (stopped_by cursor : Bytes) (scope : Bool)
    → IsHonest (new_complete_coverage work)
      × ((c : Coverage) → new_restart_coverage work stopped_by ≡ some c → IsHonest c)
      × ((c : Coverage)
          → new_cursor_coverage_with_scope work stopped_by cursor scope ≡ some c
          → IsHonest c)
      × ((new_cursor_coverage_with_scope work stopped_by cursor scope ≡ none)
          ↔ ((is_empty cursor ≡ true) ⊎ (valid_cursor_stop stopped_by ≡ false)))
new_coverage-IsHonest work stopped_by cursor scope = (
  complete-IsHonest work,
  restart-IsHonest work stopped_by,
  cursor-IsHonest work stopped_by cursor scope,
  ground arith,
)
