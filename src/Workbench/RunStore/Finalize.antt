-- ===== src/Workbench/RunStore/Finalize.antt =====
-- Who ends a run: `finalize_run` and `update_run_if_status` of web_console/run_store.py.
use ros2_vlm_demo.Common.{
  String, ◌≡◌, ◌≢◌, Bool, refl, ap, ◌⊎◌, inl, inr, true, false, Option, none, some, [], ◌∷◌, ◌==◌,
  string_dec, contains, if◌then◌else◌, arith, Bool-cases, Option-cases,
}
use ros2_vlm_demo.Common.Dict
use ros2_vlm_demo.Common.Dict.{Dict, NodupKeys}
use ros2_vlm_demo.Json.{Value, str}
use ros2_vlm_demo.Workbench.RunId.{is_safe_run_id}
use ros2_vlm_demo.Workbench.RunStore.{
  Record, Runs, is_terminal, is_terminal_status, is_hashable, has_status, terminal_statuses, update,
  get_run, update_run_if_status, finalize_run,
}

abbrev pub or_old : Option Value → Option Value → Option Value
or_old none old = old
or_old (some v) old = some v

-- An update writes its keys and keeps the others.
lookup-update :
    (k : String) (updates r : Record)
    → NodupKeys updates
    → Dict.lookup k (update r updates) ≡ or_old (Dict.lookup k updates) (Dict.lookup k r)
unfolding update Dict.lookup
lookup-update k [] r u = refl
lookup-update k ((j, v) ∷ updates) r (fresh, u) = elim (string_dec j k) [
  | yes p ↦ ground (
    arith,
    lookup-update k updates (Dict.insert j v r) u,
    Dict.lookup-insert k j v r,
    Dict.lookup-none_of_has j updates fresh,
    ap (λ t. Dict.lookup t updates) p,
  )
  | no n ↦ ground (arith, lookup-update k updates (Dict.insert j v r) u, Dict.lookup-insert k j v r)
]

update-is_terminal :
    (updates r : Record)
    → NodupKeys updates
    → is_terminal updates ≡ true
    → is_terminal (update r updates) ≡ true
unfolding is_terminal
update-is_terminal updates r u h = ground (arith, lookup-update "status" updates r u)

failed_not : some false ≢ some true
failed_not h = ground arith

raised_not : Path (Option Bool) none (some true) → ⊥
raised_not h = ground arith

-- A finalization does nothing, or it replaces the record of a run that is not over.
finalize_run-cases :
    (run_id : String) (updates : Record) (runs : Runs)
    → ((finalize_run run_id updates runs).0 ≢ some true)
      ⊎ ((r : Record) × (is_safe_run_id run_id ≡ true)
          × (Dict.lookup run_id runs ≡ some r)
          × (is_terminal r ≡ false)
          × (finalize_run run_id updates runs
              ≡ (some true, Dict.insert run_id (update r updates) runs)))
unfolding finalize_run
finalize_run-cases run_id updates runs = elim (Bool-cases (is_safe_run_id run_id)) [
  | inr unsafe ↦ inl (rw unsafe failed_not)
  | inl safe ↦ elim (Option-cases (Dict.lookup run_id runs)) [
    | inl missing ↦ inl (rw (safe, missing) failed_not)
    | inr (r, found) ↦ elim (Bool-cases (is_hashable (Dict.lookup "status" r))) [
      | inr raises ↦ inl (rw (safe, found, raises) raised_not)
      | inl hashable ↦ elim (Bool-cases (is_terminal r)) [
        | inl over ↦ inl (rw (safe, found, hashable, over) failed_not)
        | inr going ↦ inr (r, safe, found, going, rw (safe, found, hashable, going) refl)
      ]
    ]
  ]
]

terminal-is_hashable : (v : Option Value) → is_terminal_status v ≡ true → is_hashable v ≡ true
terminal-is_hashable none h = refl
terminal-is_hashable (some (str s)) h = refl
terminal-is_hashable (some v) h = ground arith

finalize_run_over :
    (run_id : String) (updates r : Record) (runs : Runs)
    → Dict.lookup run_id runs ≡ some r
    → is_terminal r ≡ true
    → finalize_run run_id updates runs ≡ (some false, runs)
unfolding finalize_run is_terminal
finalize_run_over run_id updates r runs found over =
    let hashable = terminal-is_hashable (Dict.lookup "status" r) over in
    elim (Bool-cases (is_safe_run_id run_id)) [
      | inl safe ↦ rw (safe, found, hashable, over) refl
      | inr unsafe ↦ rw unsafe refl
    ]

-- A run that is not there has an empty record, which is not terminal.
abbrev pub or_no_record : Option Record → Record
or_no_record none = []
or_no_record (some r) = r

other_status :
    (v : Option Value) (expected : String)
    → is_terminal_status v ≡ true
    → contains terminal_statuses expected ≡ false
    → has_status v expected ≡ false
other_status none expected h k = refl
other_status (some (str s)) expected h k = elim (string_dec s expected) [
  | yes p ↦ absurd (cc (ap (contains terminal_statuses) p, h, k))
  | no n ↦ ground arith
]
other_status (some v) expected h k = ground arith

update_over :
    (run_id expected : String) (later r : Record) (runs : Runs)
    → Dict.lookup run_id runs ≡ some r
    → is_terminal r ≡ true
    → contains terminal_statuses expected ≡ false
    → (update_run_if_status run_id expected later runs).1 ≡ runs
unfolding update_run_if_status is_terminal
update_over run_id expected later r runs found over running =
    elim (Bool-cases (is_safe_run_id run_id)) [
      | inl safe ↦
          rw (safe, found, other_status (Dict.lookup "status" r) expected over running) refl
      | inr unsafe ↦ rw unsafe refl
    ]

get_run_over :
    (run_id : String) (r : Record) (runs : Runs)
    → is_safe_run_id run_id ≡ true
    → Dict.lookup run_id runs ≡ some r
    → is_terminal r ≡ true
    → is_terminal (or_no_record (get_run run_id runs)) ≡ true
unfolding get_run
get_run_over run_id r runs safe found over = rw (safe, found) over

get_run-insert :
    (other run_id : String) (r : Record) (runs : Runs)
    → get_run other (Dict.insert run_id r runs)
      ≡ (if run_id == other then get_run run_id (Dict.insert run_id r runs) else get_run other runs)
unfolding get_run
get_run-insert other run_id r runs = elim (string_dec run_id other) [
  | yes p ↦ ground (arith, ap (λ t. get_run t (Dict.insert run_id r runs)) p)
  | no n ↦ ground (arith, Dict.lookup-insert other run_id r runs)
]

-- The first finalization wins: after one that has succeeded with a terminal status, another one of the
-- same run fails and changes nothing, and no transition that expects a status that is not terminal
-- changes anything either; and no other run has been touched.
pub finalize_run_lem :
    (run_id : String) (updates later : Record) (expected : String) (other : String) (runs : Runs)
    → NodupKeys updates
    → is_terminal updates ≡ true
    → contains terminal_statuses expected ≡ false
    → (finalize_run run_id updates runs).0 ≡ some true
    → let runs' = (finalize_run run_id updates runs).1 in
      (finalize_run run_id later runs' ≡ (some false, runs'))
      × ((update_run_if_status run_id expected later runs').1 ≡ runs')
      × (is_terminal (or_no_record (get_run run_id runs')) ≡ true)
      × (get_run other runs'
          ≡ (if run_id == other then get_run run_id runs' else get_run other runs))
finalize_run_lem run_id updates later expected other runs u ends running won =
    elim (finalize_run-cases run_id updates runs) [
      | inl kept ↦ absurd (kept won)
      | inr (r, safe, found, going, result) ↦
          let r' = update r updates in
          let over = update-is_terminal updates r u ends in
          let here : Dict.lookup run_id (Dict.insert run_id r' runs) ≡ some r' =
            ground (arith, Dict.lookup-insert run_id run_id r' runs) in
          rw result (
            finalize_run_over run_id later r' (Dict.insert run_id r' runs) here over,
            update_over run_id expected later r' (Dict.insert run_id r' runs) here over running,
            get_run_over run_id r' (Dict.insert run_id r' runs) safe here over,
            get_run-insert other run_id r' runs,
          )
    ]
