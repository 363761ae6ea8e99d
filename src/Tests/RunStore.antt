-- ===== src/Tests/RunStore.antt =====
-- A running run for web_console/run_store.py.
use ros2_vlm_demo.Common.{
  String, none, some, ◌≡◌, refl, ap, true, false, [], ◌∷◌, ◌==◌, string_dec, if◌then◌else◌,
}
use ros2_vlm_demo.Common.Dict
use ros2_vlm_demo.Json.{str, list, no_elements}
use ros2_vlm_demo.Workbench.RunId.{is_safe_run_id, uuid_re, is_hex}
use ros2_vlm_demo.Workbench.RunStore.{
  Record, Runs, is_terminal, get_run, update, update_run_if_status, finalize_run,
}
use ros2_vlm_demo.Workbench.RunStore.Finalize.{or_no_record, finalize_run_lem}

abbrev run : String
run = "0123abcd-0123-4567-89ab-0123456789ab"

abbrev runs : Runs
runs = (run, ("status", str "running") ∷ []) ∷ []

abbrev done : Record
done = ("status", str "completed") ∷ []

abbrev stopped : Record
stopped = ("status", str "stopped") ∷ []

done-is_terminal : is_terminal done ≡ true
unfolding is_terminal Dict.lookup string_dec
done-is_terminal = refl

finalized : finalize_run run done runs ≡ (some true, (run, done) ∷ [])
unfolding finalize_run update is_terminal is_safe_run_id uuid_re is_hex Dict.lookup Dict.insert
    string_dec
finalized = refl

-- A status that is an array raises.
odd_status : (finalize_run run done ((run, ("status", list no_elements) ∷ []) ∷ [])).0 ≡ none
unfolding finalize_run is_safe_run_id uuid_re is_hex Dict.lookup string_dec
odd_status = refl

finalize_run_lem_example :
    let runs' = (finalize_run run done runs).1 in
    (finalize_run run stopped runs' ≡ (some false, runs'))
    × ((update_run_if_status run "running" stopped runs').1 ≡ runs')
    × (is_terminal (or_no_record (get_run run runs')) ≡ true)
    × (get_run run runs' ≡ (if run == run then get_run run runs' else get_run run runs))
unfolding Dict.has string_dec
finalize_run_lem_example =
    finalize_run_lem run done stopped "running" run runs (refl, tt) done-is_terminal refl
      (ap (λ t. t.0) finalized)
