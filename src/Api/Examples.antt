-- ===== src/Api/Examples.antt =====
-- The theorems on the API at concrete inputs.
use radstorm.Prelude.{refl, true, [], ◌∷◌}
use radstorm.Prelude.Int.{pos}
use radstorm.Prelude.Maps.{lookup, put, lookup-put_self, text_key}
use radstorm.Api.Store.{Run, succeeded, with_status, new_run}
use radstorm.Api.Runs.{Api, asked_create, wrote_cancel, steps}
use radstorm.Api.Runs.Wedged.{Wedged, NoneCreated, late_cancel-Wedged}

-- A run that has succeeded, and a request to cancel that read its status before.
abbrev done_run : Run
done_run = with_status succeeded 20 (new_run [] (114 ∷ []) (pos 2) 10)

abbrev late_api : Api
late_api = record {
  store = record { runs = put (114 ∷ []) done_run []; order = (114 ∷ []) ∷ [] };
  active = [];
  cancels = put (114 ∷ []) true [];
}

late_cancel-Wedged_example :
    let after =
      steps
        (wrote_cancel (114 ∷ []) 21 ∷ asked_create [] (115 ∷ []) (pos 2) 22 true ∷ [])
        late_api in
    NoneCreated after.0 × Wedged (114 ∷ []) after.1
unfolding lookup
late_cancel-Wedged_example =
    late_cancel-Wedged (114 ∷ []) 21 true (asked_create [] (115 ∷ []) (pos 2) 22 true ∷ []) done_run
      late_api (lookup-put_self (114 ∷ []) done_run []) refl (lookup-put_self (114 ∷ []) true [])
